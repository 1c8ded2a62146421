-- ===== src/Invariant/Relaying.antt =====
-- The loop of proxy/read_handler.c over the announcement of the payload, where it ends by its test,
-- leaves all but the descriptors as it was.
use lrued_redis_storage_iceb.Prelude.{
  arith, ℕ, zero, suc, ◌≡◌, refl, Bool, true, false, Option, none, [], ◌∷◌, ◌++◌, ◌==◌, leb, length,
  if◌then◌else◌,
}
use lrued_redis_storage_iceb.State.{
  Fd, Text, Os, Run, ok, exits, undefined, hangs, Globals, max_read,
}
use lrued_redis_storage_iceb.Io.{ReadData, failed, nothing, bytes, read_data}
use lrued_redis_storage_iceb.ReadHandler.{to_slave, sync_line}
use lrued_redis_storage_iceb.Invariant.{Core, core}
use lrued_redis_storage_iceb.Invariant.Success.{
  After, Still, was_read, was_sent, from_same, read_data-Still, to_slave-Still,
}

module _ {W B : Type 0} (P : B → Core → Type 0) (before : Core) (b : B)
    (failing : (c : Core) → P b c) where
  -- What follows a write to the slave.
  sent-After :
      (r : Run (Bool × Globals W)) (k : Globals W → Run (B × Globals W))
      → After (Still (λ sent. sent) before) r
      → ((g : Globals W) → core g ≡ before → After P (k g))
      → After P (elim r [
        | ok (false, g) ↦ ok (b, g)
        | ok (true, g) ↦ k g
        | exits ↦ exits
        | undefined ↦ undefined
        | hangs ↦ hangs
      ])
  unfolding After
  sent-After (ok (false, g)) k s l = failing (core g)
  sent-After (ok (true, g)) k s l = l g (s refl)
  sent-After exits k s l = tt
  sent-After undefined k s l = tt
  sent-After hangs k s l = tt

  -- What follows a read of one byte.
  one_byte-After :
      (r : Run (ReadData × Globals W)) (again : Globals W → Run (B × Globals W))
      (k : ℕ → Globals W → Run (B × Globals W))
      → After (Still was_read before) r
      → ((g : Globals W) → core g ≡ before → After P (again g))
      → ((c : ℕ) (g : Globals W) → core g ≡ before → After P (k c g))
      → After P (elim r [
        | ok (failed, g) ↦ ok (b, g)
        | ok (nothing, g) ↦ again g
        | ok (bytes [], g) ↦ again g
        | ok (bytes (c ∷ _), g) ↦ k c g
        | exits ↦ exits
        | undefined ↦ undefined
        | hangs ↦ hangs
      ])
  unfolding After
  one_byte-After (ok (failed, g)) again k s la l = failing (core g)
  one_byte-After (ok (nothing, g)) again k s la l = la g (s refl)
  one_byte-After (ok (bytes [], g)) again k s la l = la g (s refl)
  one_byte-After (ok (bytes (c ∷ _), g)) again k s la l = l c g (s refl)
  one_byte-After exits again k s la l = tt
  one_byte-After undefined again k s la l = tt
  one_byte-After hangs again k s la l = tt

module _ {W A : Type 0} (P : A → Core → Type 0) where
  if-After :
      (c : Bool) (r s : Run (A × Globals W)) → After P r → After P s → After P (if c then r else s)
  if-After true r s kr ks = kr
  if-After false r s kr ks = ks

module _ {W J : Type 0} (os : Os W J) where
  pub sync_line-Still :
      (rounds : ℕ) (fd : Fd) (line : Text) (g : Globals W)
      → After (Still was_sent (core g)) (sync_line os rounds fd line g)
  unfolding After sync_line
  sync_line-Still zero fd line g = tt
  sync_line-Still (suc rounds) fd line g =
      let P : Option Text → Core → Type 0 = Still was_sent (core g) in
      let unsent : (c : Core) → P none c = λ c e. absurd (ground (arith, e)) in
      let go : (line' : Text) (g' : Globals W)
          → core g' ≡ core g
          → After P (sync_line os rounds fd line' g') =
        λ line' g' e. from_same os was_sent (core g) g' _ e (sync_line-Still rounds fd line' g') in
      if-After P (leb max_read (length line)) _ _ tt (
        one_byte-After P (core g) none unsent (read_data os fd 1 g) (sync_line os rounds fd line) _
          (read_data-Still os fd 1 g) (go line)
          (λ c g' e.
            sent-After P (core g) none unsent (to_slave os (c ∷ []) g') _
              (from_same os (λ sent. sent) (core g) g' _ e (to_slave-Still os (c ∷ []) g'))
              (λ g'' e'.
                if-After P (c == 10) _ _
                  (if-After P (length line == 0) _ _ (go line g'' e') (λ t. e'))
                  (go (line ++ (c ∷ [])) g'' e'))))
