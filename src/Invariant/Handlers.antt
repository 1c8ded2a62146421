-- ===== src/Invariant/Handlers.antt =====
-- proxy/read_handler.c keeps an invariant; what stores a state of the synchronisation needs one that
-- allows any.
use lrued_redis_storage_iceb.Prelude.{[], ◌∷◌, ◌++◌, ◌==◌, ltb, length, ◌&&◌, ◌||◌, codes}
use lrued_redis_storage_iceb.State.{
  Fd, Text, Os, M, pure, max_read, Phase, start, sync_start, sync, running,
}
use lrued_redis_storage_iceb.Io.{ReadData, failed, nothing, bytes}
use lrued_redis_storage_iceb.ReadHandler.{
  received, read_del_value, read_from_slave, start_bulk, on_sync_start, on_sync, on_running,
  on_start, on_data, read_from_master, begins,
}
use lrued_redis_storage_iceb.Invariant.{
  Core, core, IsInvariant, Keeps, bind-Keeps, then-Keeps, pure-Keeps, gets-Keeps, call-Keeps,
  change-Keeps, exits-Keeps, if-Keeps, when-Keeps, option-Keeps,
}
use lrued_redis_storage_iceb.Invariant.Calls.{read_data-Keeps, write_data-Keeps}
use lrued_redis_storage_iceb.Invariant.Parsing.{parse_read_data-Keeps}
use lrued_redis_storage_iceb.Invariant.Commands.{process_input_buffer-Keeps}
use lrued_redis_storage_iceb.Invariant.Loops.{
  to_slave-Keeps, sync_line-Settled, sync_payload-Settled,
}

module _ {W J : Type 0} (os : Os W J) {P : Core → Type 0} (inv : IsInvariant P) where
  pub got-Keeps :
      (got : ReadData) (f : Text → M W (Unit {0}))
      → ((text : Text) → Keeps P (f text))
      → Keeps P (elim got as (λ r. M W (Unit {0})) [ bytes text ↦ f text | _ ↦ pure tt ])
  got-Keeps failed f k = pure-Keeps tt
  got-Keeps nothing f k = pure-Keeps tt
  got-Keeps (bytes text) f k = k text

  pub received-Keeps : (text : Text) → Keeps P (received os text)
  unfolding received
  received-Keeps text =
      bind-Keeps _ _ (call-Keeps os.stale)
        (λ rest. pure-Keeps (record { len = length text; bytes = text ++ rest }))

  pub read_del_value-Keeps : (fd : Fd) → Keeps P (read_del_value os fd)
  unfolding read_del_value
  read_del_value-Keeps fd = bind-Keeps _ _ (read_data-Keeps os inv fd max_read) (λ got.
      got-Keeps got _ (λ text.
        bind-Keeps _ _ (received-Keeps text) (λ wdata. parse_read_data-Keeps os inv wdata)))

  pub on_running-Keeps : (text : Text) → Keeps P (on_running os text)
  unfolding on_running
  on_running-Keeps text = bind-Keeps _ _ (received-Keeps text) (λ wdata.
      then-Keeps _ _ (process_input_buffer-Keeps os inv wdata)
        (bind-Keeps _ _ (to_slave-Keeps os inv text) (λ sent. pure-Keeps tt)))

module _ {W J : Type 0} (os : Os W J) {P : Core → Type 0} (inv : IsInvariant P)
    (any_phase : (c : Core) (p : Phase) → P c → P (record c { phase = p })) where
  pub read_from_slave-Keeps : (fd : Fd) → Keeps P (read_from_slave os fd)
  unfolding read_from_slave
  read_from_slave-Keeps fd = bind-Keeps _ _ (read_data-Keeps os inv fd max_read) (λ got.
      got-Keeps os inv got _ (λ text.
        then-Keeps _ _
          (when-Keeps _ _ (
            change-Keeps (λ g. record g { phase = sync_start })
              (λ g. any_phase (core g) sync_start)))
          (bind-Keeps _ _ (gets-Keeps (λ g. g.master_fd)) (λ master.
            bind-Keeps _ _ (write_data-Keeps os inv master text) (λ wr. pure-Keeps tt)))))

  start_bulk-Keeps : (line : Text) → Keeps P (start_bulk os line)
  unfolding start_bulk
  start_bulk-Keeps [] = pure-Keeps tt
  start_bulk-Keeps (c ∷ digits) = if-Keeps (c == 45) _ _ (exits-Keeps (Unit {0})) (
      change-Keeps (λ g. record g { bulk_size = os.strtoull digits; phase = sync })
        (λ g. any_phase (core g) sync))

  on_sync_start-Keeps : (fd : Fd) → Keeps P (on_sync_start os fd)
  unfolding on_sync_start
  on_sync_start-Keeps fd =
      bind-Keeps _ _ (record { keeps = sync_line-Settled os inv os.rounds fd [] })
        (λ line. option-Keeps line _ _ (pure-Keeps tt) (λ l. start_bulk-Keeps l))

  on_sync-Keeps : (fd : Fd) → Keeps P (on_sync os fd)
  unfolding on_sync
  on_sync-Keeps fd =
      bind-Keeps _ _ (record { keeps = sync_payload-Settled os inv os.rounds fd })
        (λ done.
          when-Keeps done _
            (change-Keeps (λ g. record g { phase = running }) (λ g. any_phase (core g) running)))

  on_start-Keeps : (text : Text) → Keeps P (on_start os text)
  unfolding on_start
  on_start-Keeps text = bind-Keeps _ _ (received-Keeps os inv text) (λ wdata.
      then-Keeps _ _
        (when-Keeps
          (ltb 9 (length text)
            && (ltb (length text) 100
                && (begins os (codes "+CONTINUE") wdata.bytes
                    || begins os (codes "+FULLRESYNC") wdata.bytes)))
          _
          (change-Keeps (λ g. record g { phase = sync_start })
            (λ g. any_phase (core g) sync_start)))
        (bind-Keeps _ _ (to_slave-Keeps os inv text) (λ sent. pure-Keeps tt)))

  on_data-Keeps : (fd : Fd) → Keeps P (on_data os fd)
  unfolding on_data
  on_data-Keeps fd = bind-Keeps _ _ (read_data-Keeps os inv fd max_read) (λ got.
      bind-Keeps _ _ (gets-Keeps (λ g. g.phase))
        (λ phase. got-Keeps os inv got _ (λ text. by_phase text phase)))
    where
      by_phase :
          (text : Text) (phase : Phase)
          → Keeps P (elim phase [ running ↦ on_running os text | _ ↦ on_start os text ])
      by_phase text start = on_start-Keeps text
      by_phase text sync_start = on_start-Keeps text
      by_phase text sync = on_start-Keeps text
      by_phase text running = on_running-Keeps os inv text

  pub read_from_master-Keeps : (fd : Fd) → Keeps P (read_from_master os fd)
  unfolding read_from_master
  read_from_master-Keeps fd = bind-Keeps _ _ (gets-Keeps (λ g. g.phase)) by_phase
    where
      by_phase :
          (phase : Phase)
          → Keeps P (elim phase [
            | sync_start ↦ on_sync_start os fd
            | sync ↦ on_sync os fd
            | _ ↦ on_data os fd
          ])
      by_phase start = on_data-Keeps fd
      by_phase sync_start = on_sync_start-Keeps fd
      by_phase sync = on_sync-Keeps fd
      by_phase running = on_data-Keeps fd
