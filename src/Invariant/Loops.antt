-- ===== src/Invariant/Loops.antt =====
-- The loops of a synchronisation, in proxy/read_handler.c, keep an invariant.
use lrued_redis_storage_iceb.Prelude.{
  ℕ, zero, suc, ◌-◌, ◌^◌, true, false, Bool, Option, none, [], ◌∷◌, ◌++◌, ◌==◌, leb, length, min,
}
use lrued_redis_storage_iceb.State.{
  Fd, Text, Os, Run, ok, exits, undefined, hangs, Globals, max_read,
}
use lrued_redis_storage_iceb.Io.{ReadData, failed, nothing, bytes, read_data}
use lrued_redis_storage_iceb.ReadHandler.{to_slave, sync_line, sync_payload}
use lrued_redis_storage_iceb.Invariant.{
  Core, core, IsInvariant, Settled, Keeps, bind-Keeps, pure-Keeps, gets-Keeps, if-Settled,
  option-Keeps,
}
use lrued_redis_storage_iceb.Invariant.Calls.{read_data-Keeps, write_data-Keeps}

module _ {W J : Type 0} (os : Os W J) {P : Core → Type 0} (inv : IsInvariant P) where
  pub to_slave-Keeps : (text : Text) → Keeps P (to_slave os text)
  unfolding to_slave
  to_slave-Keeps text = bind-Keeps _ _ (gets-Keeps (λ g. g.client_fd)) (λ fd.
      bind-Keeps _ _ (write_data-Keeps os inv fd text)
        (λ wr. option-Keeps wr _ _ (pure-Keeps false) (λ n. pure-Keeps true)))

  -- What follows a write to the slave.
  sent-Settled :
      {B : Type 0} (r : Run (Bool × Globals W)) (b : B) (k : Globals W → Run (B × Globals W))
      → Settled P r
      → ((g : Globals W) → P (core g) → Settled P (k g))
      → Settled P (elim r [
        | ok (false, g) ↦ ok (b, g)
        | ok (true, g) ↦ k g
        | exits ↦ exits
        | undefined ↦ undefined
        | hangs ↦ hangs
      ])
  unfolding Settled
  sent-Settled (ok (false, g)) b k s l = s
  sent-Settled (ok (true, g)) b k s l = l g s
  sent-Settled exits b k s l = tt
  sent-Settled undefined b k s l = tt
  sent-Settled hangs b k s l = tt

  -- What follows a read of one byte.
  one_byte-Settled :
      (r : Run (ReadData × Globals W)) (again : Globals W → Run (Option Text × Globals W))
      (k : ℕ → Globals W → Run (Option Text × Globals W))
      → Settled P r
      → ((g : Globals W) → P (core g) → Settled P (again g))
      → ((c : ℕ) (g : Globals W) → P (core g) → Settled P (k c g))
      → Settled P (elim r [
        | ok (failed, g) ↦ ok (none, g)
        | ok (nothing, g) ↦ again g
        | ok (bytes [], g) ↦ again g
        | ok (bytes (c ∷ _), g) ↦ k c g
        | exits ↦ exits
        | undefined ↦ undefined
        | hangs ↦ hangs
      ])
  unfolding Settled
  one_byte-Settled (ok (failed, g)) again k s la l = s
  one_byte-Settled (ok (nothing, g)) again k s la l = la g s
  one_byte-Settled (ok (bytes [], g)) again k s la l = la g s
  one_byte-Settled (ok (bytes (c ∷ _), g)) again k s la l = l c g s
  one_byte-Settled exits again k s la l = tt
  one_byte-Settled undefined again k s la l = tt
  one_byte-Settled hangs again k s la l = tt

  pub sync_line-Settled :
      (rounds : ℕ) (fd : Fd) (line : Text) (g : Globals W)
      → P (core g)
      → Settled P (sync_line os rounds fd line g)
  unfolding sync_line Settled
  sync_line-Settled zero fd line g v = tt
  sync_line-Settled (suc rounds) fd line g v = if-Settled P (leb max_read (length line)) _ _ tt (
      one_byte-Settled (read_data os fd 1 g) (sync_line os rounds fd line) _
        ((read_data-Keeps os inv fd 1).keeps g v) (sync_line-Settled rounds fd line)
        (λ c g' v'.
          sent-Settled (to_slave os (c ∷ []) g') none _ ((to_slave-Keeps (c ∷ [])).keeps g' v')
            (λ g'' v''.
              if-Settled P (c == 10) _ _
                (if-Settled P (length line == 0) _ _ (sync_line-Settled rounds fd line g'' v'') v'')
                (sync_line-Settled rounds fd (line ++ (c ∷ [])) g'' v''))))

  -- What follows a read of the payload.
  payload-Settled :
      (r : Run (ReadData × Globals W)) (again : Globals W → Run (Bool × Globals W))
      (k : Text → Globals W → Run (Bool × Globals W))
      → Settled P r
      → ((g : Globals W) → P (core g) → Settled P (again g))
      → ((text : Text) (g : Globals W) → P (core g) → Settled P (k text g))
      → Settled P (elim r [
        | ok (failed, g) ↦ ok (false, g)
        | ok (nothing, g) ↦ again g
        | ok (bytes text, g) ↦ k text g
        | exits ↦ exits
        | undefined ↦ undefined
        | hangs ↦ hangs
      ])
  unfolding Settled
  payload-Settled (ok (failed, g)) again k s la l = s
  payload-Settled (ok (nothing, g)) again k s la l = la g s
  payload-Settled (ok (bytes text, g)) again k s la l = l text g s
  payload-Settled exits again k s la l = tt
  payload-Settled undefined again k s la l = tt
  payload-Settled hangs again k s la l = tt

  payload_round :
      (c : Bool) (g : Globals W) (r : Run (Bool × Globals W))
      → P (core g)
      → Settled P r
      → Settled P (elim c [ true ↦ ok (true, g) | false ↦ r ])
  unfolding Settled
  payload_round true g r v s = v
  payload_round false g r v s = s

  pub sync_payload-Settled :
      (rounds : ℕ) (fd : Fd) (g : Globals W) → P (core g) → Settled P (sync_payload os rounds fd g)
  unfolding sync_payload Settled
  sync_payload-Settled zero fd g v = tt
  sync_payload-Settled (suc rounds) fd g v =
      let size = min g.bulk_size max_read in
      payload_round (g.bulk_size == 0) g _ v (
        if-Settled P (leb (2 ^ 63) g.bulk_size) _ _ tt (
          payload-Settled (read_data os fd size g) (sync_payload os rounds fd) _
            ((read_data-Keeps os inv fd size).keeps g v) (sync_payload-Settled rounds fd)
            (λ text g' v'.
              sent-Settled (to_slave os text g') false _ ((to_slave-Keeps text).keeps g' v')
                (λ g'' v''.
                  sync_payload-Settled rounds fd
                    (record g'' { bulk_size = g''.bulk_size - length text }) v''))))
