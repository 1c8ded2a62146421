-- ===== src/Invariant/Turns.antt =====
-- Each turn of the event loop is a step of the machine, in proxy/read_handler.c, parser.c and event.c.
use lrued_redis_storage_iceb.Prelude.{
  ◌≡◌, refl, sym, ap, ◌∙◌, subst, ◌⊎◌, inl, inr, Bool, true, false, Option, none, some, [], ◌∷◌,
  ◌==◌, if◌then◌else◌,
}
use lrued_redis_storage_iceb.CirQueue.Valid.{IsValid}
use lrued_redis_storage_iceb.State.{
  Fd, Text, Phase, start, sync_start, sync, running, Os, Run, ok, exits, Globals, M, ◌>>=◌, pure,
  fails, gets, modify, when, max_read,
}
use lrued_redis_storage_iceb.Io.{write_data}
use lrued_redis_storage_iceb.Event.{time_event, accept_tcp_handler}
use lrued_redis_storage_iceb.ReadHandler.{
  received, read_del_value, to_slave, read_from_slave, read_from_master, start_bulk, sync_line,
  sync_payload, on_sync_start, on_sync, on_running, on_start, on_data,
}
use lrued_redis_storage_iceb.Invariant.{Core, core, bind-Keeps, pure-Keeps, gets-Keeps}
use lrued_redis_storage_iceb.Invariant.Calls.{write_data-Keeps}
use lrued_redis_storage_iceb.Invariant.Loops.{
  to_slave-Keeps, sync_line-Settled, sync_payload-Settled,
}
use lrued_redis_storage_iceb.Invariant.Handlers.{on_running-Keeps, read_del_value-Keeps}
use lrued_redis_storage_iceb.Invariant.Events.{time_event-Keeps, accept_tcp_handler-Keeps}
use lrued_redis_storage_iceb.Invariant.Success.{
  both-After, After, bind-After, settled-After, Still, was_sent,
}
use lrued_redis_storage_iceb.Invariant.Relaying.{sync_line-Still}
use lrued_redis_storage_iceb.Invariant.Reach.{
  Turn, master_ready, slave_ready, value_ready, client_waits, timer, turn, Reached, Reached-IsValid,
}
use lrued_redis_storage_iceb.Invariant.Phases.{
  Step, stays, asks, answers, announces, relays, OrStart, OrStart-IsInvariant, Steps, or_start-Step,
  kept-After, when-After, got-After,
}

module _ {W J : Type 0} (os : Os W J) where
  on_slave :
      (fd : Fd) (g : Globals W)
      → IsValid g.queue
      → After (Steps (slave_ready fd) g.phase) (read_from_slave os fd g)
  unfolding read_from_slave
  on_slave fd g v =
      got-After os (slave_ready fd) g fd max_read _ v (λ g'. refl) (λ g'. refl)
        (λ text g' v' e.
          when-After os (slave_ready fd) g.phase g.phase sync_start _
            (gets (λ g. g.master_fd) >>= λ master. write_data os master text >>= λ wr. pure tt) g'
            (stays _ g.phase) (asks fd g.phase) v' e
            (λ s. bind-Keeps _ _ (gets-Keeps (λ g. g.master_fd)) (λ master.
              bind-Keeps _ _ (write_data-Keeps os (OrStart-IsInvariant s) master text)
                (λ wr. pure-Keeps tt))))

  -- START_STATE; the test is that for the answer to PSYNC.
  on_start-Step :
      (fd : Fd) (text : Text) (g : Globals W)
      → IsValid g.queue
      → g.phase ≡ start
      → After (Steps (master_ready fd) start) (on_start os text g)
  unfolding on_start received
  on_start-Step fd text g v e =
      when-After os (master_ready fd) start start sync_start _
        (to_slave os text >>= λ sent. pure tt) (record g { world = (os.stale g.world).1 })
        (stays _ start) (answers fd) v e
        (λ s.
          bind-Keeps _ _ (to_slave-Keeps os (OrStart-IsInvariant s) text) (λ sent. pure-Keeps tt))

  on_running-Step :
      (t : Turn) (text : Text) (g : Globals W)
      → IsValid g.queue
      → After (Steps t g.phase) (on_running os text g)
  on_running-Step t text g v =
      kept-After os t g.phase g.phase (on_running os text) g (stays t g.phase) v refl
        (on_running-Keeps os (OrStart-IsInvariant g.phase) text)

  -- What a line that was read to its end announces.
  start_bulk-Step :
      (fd : Fd) (line : Text) (g : Globals W)
      → g.phase ≡ sync_start
      → After (Steps (master_ready fd) sync_start) (start_bulk os line g)
  unfolding start_bulk After
  start_bulk-Step fd [] g e = or_start-Step (master_ready fd) sync_start g.phase (inl e)
  start_bulk-Step fd (c ∷ digits) g e = by_sign (c == 45)
    where
      by_sign :
          (is_error : Bool)
          → After (Steps (master_ready fd) sync_start) (
              (if is_error
                  then fails exits
                  else modify (λ g. record g { bulk_size = os.strtoull digits; phase = sync }))
                g)
      by_sign true = tt
      by_sign false = announces fd

  on_sync_start-Step :
      (fd : Fd) (g : Globals W)
      → IsValid g.queue
      → g.phase ≡ sync_start
      → After (Steps (master_ready fd) sync_start) (on_sync_start os fd g)
  unfolding on_sync_start After
  on_sync_start-Step fd g v e =
      bind-After (λ l c. Still was_sent (core g) l c × OrStart sync_start c)
        (Steps (master_ready fd) sync_start) (sync_line os os.rounds fd [] g) g _
        (both-After (Still was_sent (core g)) (λ l c. OrStart sync_start c) _
          (sync_line-Still os os.rounds fd [] g)
          (settled-After (OrStart sync_start) _
            (sync_line-Settled os (OrStart-IsInvariant sync_start) os.rounds fd [] g (v, inl e))))
        by_line
    where
      by_line :
          (l : Option Text) (g' : Globals W)
          → Still was_sent (core g) l (core g') × OrStart sync_start (core g')
          → After (Steps (master_ready fd) sync_start) (
              (elim l as (λ x. M W (Unit {0})) [ none ↦ pure tt | some line ↦ start_bulk os line ])
                g')
      by_line none g' h = or_start-Step (master_ready fd) sync_start g'.phase h.1.1
      by_line (some line) g' h =
          start_bulk-Step fd line g' (ap (λ (c : Core). c.phase) (h.0 refl) ∙ e)

  on_sync-Step :
      (fd : Fd) (g : Globals W)
      → IsValid g.queue
      → g.phase ≡ sync
      → After (Steps (master_ready fd) sync) (on_sync os fd g)
  unfolding on_sync After
  on_sync-Step fd g v e =
      bind-After (λ d c. OrStart sync c) (Steps (master_ready fd) sync)
        (sync_payload os os.rounds fd g) g _
        (settled-After (OrStart sync) _
          (sync_payload-Settled os (OrStart-IsInvariant sync) os.rounds fd g (v, inl e)))
        by_done
    where
      by_done :
          (done : Bool) (g' : Globals W)
          → OrStart sync (core g')
          → After
              (Steps (master_ready fd) sync)
              (when done (modify (λ g. record g { phase = running })) g')
      by_done true g' h = relays fd
      by_done false g' h = or_start-Step (master_ready fd) sync g'.phase h.1

  abbrev by_phase : Text → Phase → M W (Unit {0})
  by_phase text p = elim p as (λ p. M W (Unit {0})) [
    | running ↦ on_running os text
    | _ ↦ on_start os text
  ]

  data_in_phase-Step :
      (fd : Fd) (p : Phase) (text : Text) (g : Globals W)
      → IsValid g.queue
      → g.phase ≡ p
      → (p ≡ start) ⊎ (p ≡ running)
      → After (Steps (master_ready fd) p) (by_phase text g.phase g)
  data_in_phase-Step fd p text g v e (inl at_start) =
      subst (λ q. After (Steps (master_ready fd) q) (by_phase text g.phase g)) (sym at_start)
        (subst (λ q. After (Steps (master_ready fd) start) (by_phase text q g)) (sym (e ∙ at_start))
          (on_start-Step fd text g v (e ∙ at_start)))
  data_in_phase-Step fd p text g v e (inr at_running) =
      subst (λ q. After (Steps (master_ready fd) q) (by_phase text g.phase g)) e
        (subst (λ q. After (Steps (master_ready fd) g.phase) (by_phase text q g))
          (sym (e ∙ at_running)) (on_running-Step (master_ready fd) text g v))

  on_data-Step :
      (fd : Fd) (g : Globals W)
      → IsValid g.queue
      → (g.phase ≡ start) ⊎ (g.phase ≡ running)
      → After (Steps (master_ready fd) g.phase) (on_data os fd g)
  unfolding on_data
  on_data-Step fd g v e =
      got-After os (master_ready fd) g fd max_read _ v (λ g'. refl) (λ g'. refl)
        (λ text g' v' same. data_in_phase-Step fd g.phase text g' v' same e)

  on_master :
      (fd : Fd) (p : Phase) (g : Globals W)
      → IsValid g.queue
      → g.phase ≡ p
      → After (Steps (master_ready fd) p) (
          (elim p as (λ p. M W (Unit {0})) [
            | sync_start ↦ on_sync_start os fd
            | sync ↦ on_sync os fd
            | _ ↦ on_data os fd
          ])
            g)
  on_master fd start g v e =
      subst (λ p. After (Steps (master_ready fd) p) (on_data os fd g)) e
        (on_data-Step fd g v (inl e))
  on_master fd sync_start g v e = on_sync_start-Step fd g v e
  on_master fd sync g v e = on_sync-Step fd g v e
  on_master fd running g v e =
      subst (λ p. After (Steps (master_ready fd) p) (on_data os fd g)) e
        (on_data-Step fd g v (inr e))

  turn-After : (t : Turn) (g : Globals W) → IsValid g.queue → After (Steps t g.phase) (turn os t g)
  unfolding turn read_from_master
  turn-After (master_ready fd) g v = on_master fd g.phase g v refl
  turn-After (slave_ready fd) g v = on_slave fd g v
  turn-After (value_ready fd) g v =
      kept-After os (value_ready fd) g.phase g.phase (read_del_value os fd) g (stays _ g.phase) v
        refl (read_del_value-Keeps os (OrStart-IsInvariant g.phase) fd)
  turn-After (client_waits fd) g v =
      kept-After os (client_waits fd) g.phase g.phase (accept_tcp_handler os fd) g (stays _ g.phase)
        v refl (accept_tcp_handler-Keeps os (OrStart-IsInvariant g.phase) fd)
  turn-After timer g v =
      kept-After os timer g.phase g.phase (time_event os >>= λ ms. pure tt) g (stays _ g.phase) v
        refl
        (bind-Keeps _ _ (time_event-Keeps os (OrStart-IsInvariant g.phase)) (λ ms. pure-Keeps tt))

  ok-After :
      {A : Type 0} (P : A → Core → Type 0) (r : Run (A × Globals W)) (a : A) (g : Globals W)
      → After P r
      → r ≡ ok (a, g)
      → P a (core g)
  unfolding After
  ok-After P r a g s e = subst (After P) e s

  -- A turn of the event loop that returns, from any state in which the loop waits after `main` has
  -- come to it, changes `state` only as the machine allows: a synchronisation begins when the slave
  -- asks for it or the master answers in START_STATE, the size is announced only in SYNC_START_STATE,
  -- RUNNING_STATE is entered only from SYNC_STATE, these two by a read from the master, and anything
  -- may break, which leads to START_STATE.
  pub turn-Step :
      {g0 g g' : Globals W} (t : Turn)
      → Reached os g0 g
      → turn os t g ≡ ok (tt, g')
      → Step t g.phase g'.phase
  turn-Step {g0} {g} {g'} t r e =
      ok-After (Steps t g.phase) (turn os t g) tt g' (turn-After t g (Reached-IsValid os r)) e
