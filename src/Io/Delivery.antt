-- ===== src/Io/Delivery.antt =====
-- `writeData` of proxy/io.c on a connection that goes on taking bytes: all of them arrive, in order.
use lrued_redis_storage_iceb.Prelude.{
  ℕ, zero, suc, ◌+◌, ◌≤◌, ◌<◌, ◌≡◌, refl, ◌⊎◌, inl, inr, Option, none, some, [], ◌∷◌, ◌++◌, arith,
  length, take, drop, ◌∙◌, ap, sym, length-drop, take-append-drop, append_assoc, append-nil,
}
use lrued_redis_storage_iceb.State.{Text, Os, Run, ok, fails, Globals, ◌>>◌, eagain}
use lrued_redis_storage_iceb.Io.{reconnect, write_loop, write_to, write_data}

-- What a connection promises, from the descriptor `from` to the descriptor `to`: what was delivered,
-- what is still to be read, and how often it may yet say EAGAIN in a row.
pub record IsLink {W J : Type 0} (os : Os W J) (from to : ℕ) : Type 0 where
  pub delivered : W → Text
  pub pending : W → Text
  pub patience : W → ℕ
  pub bound : ℕ
  pub patient : (w : W) → patience w ≤ bound
  -- `write` takes a part from the front, or asks to try again.
  pub writes :
      (c : ℕ) (text : Text) (w : W)
      → ((n : ℕ) × ((os.write to (c ∷ text) w).0.sent ≡ some (suc n))
          × (n ≤ length text)
          × (delivered (os.write to (c ∷ text) w).1 ≡ delivered w ++ take (suc n) (c ∷ text))
          × (pending (os.write to (c ∷ text) w).1 ≡ pending w))
        ⊎ (((os.write to (c ∷ text) w).0.sent ≡ none)
            × ((os.write to (c ∷ text) w).0.errno ≡ eagain)
            × (delivered (os.write to (c ∷ text) w).1 ≡ delivered w)
            × (pending (os.write to (c ∷ text) w).1 ≡ pending w)
            × (patience (os.write to (c ∷ text) w).1 < patience w))
  -- `read` gives a part from the front of what is to be read, or asks to try again.
  pub reads :
      (size : ℕ) (w : W)
      → 0 < size
      → 0 < length (pending w)
      → ((c : ℕ) × (text : Text) × ((os.read from size w).0.got ≡ some (c ∷ text))
          × (length (c ∷ text) ≤ size)
          × (pending w ≡ (c ∷ text) ++ pending (os.read from size w).1)
          × (delivered (os.read from size w).1 ≡ delivered w))
        ⊎ (((os.read from size w).0.got ≡ none)
            × ((os.read from size w).0.errno ≡ eagain)
            × (delivered (os.read from size w).1 ≡ delivered w)
            × (pending (os.read from size w).1 ≡ pending w)
            × (patience (os.read from size w).1 < patience w))

-- Rounds enough for a text: each byte may wait for the longest time.
unfoldable pub budget : ℕ → Text → ℕ
budget bound [] = 0
budget bound (c ∷ text) = bound + 1 + budget bound text

pub budget-drop : (bound n : ℕ) (text : Text) → budget bound (drop n text) ≤ budget bound text
unfolding budget
budget-drop bound zero text = omega arith
budget-drop bound (suc n) [] = omega arith
budget-drop bound (suc n) (c ∷ text) = omega (arith, budget-drop bound n text)

pub budget-append :
    (bound : ℕ) (t more : Text) → budget bound (t ++ more) ≡ budget bound t + budget bound more
unfolding budget
budget-append bound [] more = omega arith
budget-append bound (c ∷ t) more = omega (arith, budget-append bound t more)

pub reconnect-set :
    {W J : Type 0} (os : Os W J) (master : ℕ) (g : Globals W)
    → g.master_fd ≡ some master
    → reconnect os g ≡ ok (tt, g)
unfolding reconnect
reconnect-set os master g e = rw e refl

module _ {W J : Type 0} (os : Os W J) {from to : ℕ} (link : IsLink os from to) where
  -- What a loop of writes leaves.
  abbrev pub Sent : Text → Globals W → Run (Option ℕ × Globals W) → ℕ → Type 0
  Sent text g r n =
      (w : W) × (r ≡ ok (some n, record g { world = w }))
      × (link.delivered w ≡ link.delivered g.world ++ text)
      × (link.pending w ≡ link.pending g.world)

  one_taken :
      (rounds all_write c n : ℕ) (text : Text) (g : Globals W)
      → (os.write to (c ∷ text) g.world).0.sent ≡ some (suc n)
      → write_loop os (suc rounds) to all_write (c ∷ text) g
        ≡ write_loop os rounds to
            (all_write + suc n)
            (drop n text)
            (record g { world = (os.write to (c ∷ text) g.world).1 })
  unfolding write_loop
  one_taken rounds all_write c n text g e = rw (e, write_loop) refl

  tried_again :
      (rounds all_write c : ℕ) (text : Text) (g : Globals W)
      → (os.write to (c ∷ text) g.world).0.sent ≡ none
      → (os.write to (c ∷ text) g.world).0.errno ≡ eagain
      → write_loop os (suc rounds) to all_write (c ∷ text) g
        ≡ write_loop os rounds to all_write
            (c ∷ text)
            (record g { world = (os.write to (c ∷ text) g.world).1 })
  unfolding write_loop
  tried_again rounds all_write c text g e e' = rw (e, e', write_loop) refl

  write_loop-sends :
      (rounds all_write : ℕ) (text : Text) (g : Globals W)
      → budget link.bound text + link.patience g.world < rounds
      → Sent text g (write_loop os rounds to all_write text g) (all_write + length text)
  unfolding budget
  write_loop-sends zero all_write text g h = absurd (omega arith)
  write_loop-sends (suc rounds) all_write [] g h = (
    g.world,
    unfold write_loop in ap (λ n. ok (some n, g)) (omega arith),
    sym (append-nil (link.delivered g.world)),
    refl,
  )
  write_loop-sends (suc rounds) all_write (c ∷ text) g h =
      let w1 = (os.write to (c ∷ text) g.world).1 in
      elim (link.writes c text g.world) [
        | inl (n, e, le, arrived, same) ↦
            let (w, runs, arrived', same') =
              write_loop-sends rounds (all_write + suc n) (drop n text) (record g { world = w1 })
                (omega (arith, budget-drop link.bound n text, link.patient w1)) in
            (
              w,
              one_taken rounds all_write c n text g e
                  ∙ runs
                  ∙ ap (λ k. ok (some k, record g { world = w }))
                      (omega (arith, length-drop n text)),
              arrived'
                  ∙ ap (λ l. l ++ drop n text) arrived
                  ∙ append_assoc (link.delivered g.world) (c ∷ take n text) (drop n text)
                  ∙ ap (λ l. link.delivered g.world ++ (c ∷ l)) (take-append-drop n text),
              same' ∙ same,
            )
        | inr (e, e', arrived, same, less) ↦
            let (w, runs, arrived', same') =
              write_loop-sends rounds all_write (c ∷ text) (record g { world = w1 })
                (omega arith) in
            (
              w,
              tried_again rounds all_write c text g e e' ∙ runs,
              arrived' ∙ ap (λ l. l ++ (c ∷ text)) arrived,
              same' ∙ same,
            )
      ]

  -- `writeData` on such a connection, with rounds enough for the text, returns the length of the
  -- text when all of it was delivered behind what was delivered before, and changes nothing else.
  pub write_data-sends :
      (master : ℕ) (text : Text) (g : Globals W)
      → g.master_fd ≡ some master
      → budget link.bound text + link.bound < os.rounds
      → Sent text g (write_data os (some to) text g) (length text)
  unfolding write_data write_to
  write_data-sends master text g e enough =
      let (w, runs, arrived, same) =
        write_loop-sends os.rounds 0 text g (omega (arith, link.patient g.world)) in
      (
        w,
        ap (λ r. (fails r >> write_to os (some to) text) g) (reconnect-set os master g e)
            ∙ runs
            ∙ ap (λ k. ok (some k, record g { world = w })) (omega arith),
        arrived,
        same,
      )
