-- ===== src/ReadHandler.antt =====
-- proxy/read_handler.c: what happens when one of the three connections has something to read.
pub mod Upstream
pub mod Stuck
pub mod Relay
pub mod Announce
pub mod Sync
use lrued_redis_storage_iceb.Prelude.{
  ℕ, zero, suc, ◌-◌, ◌^◌, Bool, true, false, ◌||◌, ◌&&◌, Option, none, some, [], ◌∷◌, ◌++◌, ◌==◌,
  ltb, leb, if◌then◌else◌, length, strncpy, codes, min,
}
use lrued_redis_storage_iceb.State.{
  Fd, Text, WData, Os, Globals, sync_start, sync, running, Run, ok, exits, undefined, hangs, M,
  pure, ◌>>=◌, ◌>>◌, fails, gets, modify, call, when, max_read,
}
use lrued_redis_storage_iceb.Io.{failed, nothing, bytes, read_data, write_data}
use lrued_redis_storage_iceb.Parser.{parse_read_data}
use lrued_redis_storage_iceb.LruedQuery.{process_input_buffer, same_text}

module _ {W J : Type 0} (os : Os W J) where
  -- A read into a local array of MAX_READ bytes, whose rest is not initialised.
  unfoldable pub received : Text → M W WData
  received got = do rest ← call os.stale; pure (record { len = length got; bytes = got ++ rest })

  unfoldable pub read_del_value : Fd → M W (Unit {0})
  unfolding received
  read_del_value fd = do
    got ← read_data os fd max_read
    elim got [ bytes text ↦ (received text >>= λ wdata. parse_read_data os wdata) | _ ↦ pure tt ]

  -- `writeData(el, client_fd, …)`, and whether it returned -1
  unfoldable pub to_slave : Text → M W Bool
  to_slave text = do
    fd ← gets (λ g. g.client_fd)
    wr ← write_data os fd text
    elim wr [ none ↦ pure false | some n ↦ pure true ]

  unfoldable pub read_from_slave : Fd → M W (Unit {0})
  read_from_slave fd = do
    got ← read_data os fd max_read
    elim got [
      | bytes text ↦ (do
        when (length text == 6 && same_text (codes "SYNC" ++ (13 ∷ 10 ∷ [])) (strncpy 6 text))
            (modify (λ g. record g { phase = sync_start }))
        master ← gets (λ g. g.master_fd)
        wr ← write_data os master text
        pure tt)
      | _ ↦ pure tt
    ]

  -- `while(1)` of SYNC_START_STATE: one byte at a time is passed on, until a newline that is not the
  -- first byte kept. `line` holds the bytes before `p`; the result is `none` where the handler
  -- returns.
  unfoldable pub sync_line : ℕ → Fd → Text → M W (Option Text)
  sync_line zero fd line g = hangs
  sync_line (suc rounds) fd line g =
      if leb max_read (length line) then undefined else elim (read_data os fd 1 g) [
        | ok (failed, g') ↦ ok (none, g')
        | ok (nothing, g') ↦ sync_line rounds fd line g'
        | ok (bytes [], g') ↦ sync_line rounds fd line g'
        | ok (bytes (c ∷ _), g') ↦ elim (to_slave (c ∷ []) g') [
          | ok (false, g'') ↦ ok (none, g'')
          | ok (true, g'') ↦
              let stop : Run (Option Text × Globals W) = ok (some line, g'') in
              let skip = sync_line rounds fd line g'' in
              let more = sync_line rounds fd (line ++ (c ∷ [])) g'' in
              if c == 10 then (if length line == 0 then skip else stop) else more
          | exits ↦ exits
          | undefined ↦ undefined
          | hangs ↦ hangs
        ]
        | exits ↦ exits
        | undefined ↦ undefined
        | hangs ↦ hangs
      ]

  -- The end of SYNC_START_STATE, with `rdata` up to `p`.
  unfoldable pub start_bulk : Text → M W (Unit {0})
  start_bulk [] = pure tt
  start_bulk (c ∷ digits) =
      if c == 45
      then fails exits
      else modify (λ g. record g { bulk_size = os.strtoull digits; phase = sync })

  unfoldable pub on_sync_start : Fd → M W (Unit {0})
  unfolding start_bulk
  on_sync_start fd = do
    line ← sync_line os.rounds fd []
    elim line [ none ↦ pure tt | some l ↦ start_bulk l ]

  -- `while(bulk_size)` of SYNC_STATE: whether it ended by its test. A `bulk_size` past `long long`
  -- is negative, and the size of the read no size of the array.
  unfoldable pub sync_payload : ℕ → Fd → M W Bool
  sync_payload zero fd g = hangs
  sync_payload (suc rounds) fd g = elim (g.bulk_size == 0) [
    | true ↦ ok (true, g)
    | false ↦
        if leb (2 ^ 63) g.bulk_size
        then undefined
        else elim (read_data os fd (min g.bulk_size max_read) g) [
          | ok (failed, g') ↦ ok (false, g')
          | ok (nothing, g') ↦ sync_payload rounds fd g'
          | ok (bytes text, g') ↦ elim (to_slave text g') [
            | ok (false, g'') ↦ ok (false, g'')
            | ok (true, g'') ↦
                sync_payload rounds fd (record g'' { bulk_size = g''.bulk_size - length text })
            | exits ↦ exits
            | undefined ↦ undefined
            | hangs ↦ hangs
          ]
          | exits ↦ exits
          | undefined ↦ undefined
          | hangs ↦ hangs
        ]
  ]

  unfoldable pub on_sync : Fd → M W (Unit {0})
  on_sync fd = do
    done ← sync_payload os.rounds fd
    when done (modify (λ g. record g { phase = running }))

  -- `!strncmp(rdata, text, n)` for a text of `n` bytes, on bytes that hold that many
  abbrev pub begins : Text → Text → Bool
  begins text rdata = same_text text (strncpy (length text) rdata)

  -- RUNNING_STATE: the commands are looked through for DEL before they are passed on.
  unfoldable pub on_running : Text → M W (Unit {0})
  unfolding received
  on_running text = do
    wdata ← received text
    process_input_buffer os wdata
    sent ← to_slave text
    pure tt

  -- START_STATE
  unfoldable pub on_start : Text → M W (Unit {0})
  unfolding received
  on_start text = do
    wdata ← received text
    when
        (ltb 9 (length text)
          && (ltb (length text) 100
              && (begins (codes "+CONTINUE") wdata.bytes
                  || begins (codes "+FULLRESYNC") wdata.bytes)))
        (modify (λ g. record g { phase = sync_start }))
    sent ← to_slave text
    pure tt

  unfoldable pub on_data : Fd → M W (Unit {0})
  on_data fd = do
    got ← read_data os fd max_read
    phase ← gets (λ g. g.phase)
    elim got [
      | bytes text ↦ elim phase [ running ↦ on_running text | _ ↦ on_start text ]
      | _ ↦ pure tt
    ]

  unfoldable pub read_from_master : Fd → M W (Unit {0})
  read_from_master fd = do
    phase ← gets (λ g. g.phase)
    elim phase [ sync_start ↦ on_sync_start fd | sync ↦ on_sync fd | _ ↦ on_data fd ]
