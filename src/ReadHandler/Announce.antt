-- ===== src/ReadHandler/Announce.antt =====
-- SYNC_START_STATE of `readFromMaster` in proxy/read_handler.c: the line that announces the size, byte
-- by byte.
use lrued_redis_storage_iceb.Prelude.{
  ℕ, zero, suc, ◌+◌, ◌*◌, ◌<◌, ◌≡◌, ◌≢◌, refl, ◌⊎◌, inl, inr, true, some, Option, [], ◌∷◌, ◌++◌,
  arith, length, replicate, ◌∙◌, ap, sym, length-append, append_assoc, append-nil,
}
use lrued_redis_storage_iceb.State.{Text, Os, Run, ok, Globals, max_read}
use lrued_redis_storage_iceb.Io.{nothing, bytes, read_data}
use lrued_redis_storage_iceb.Io.Delivery.{IsLink, budget}
use lrued_redis_storage_iceb.ReadHandler.{to_slave, sync_line}
use lrued_redis_storage_iceb.ReadHandler.Relay.{read_data-bytes, read_data-nothing, to_slave-sends}
use lrued_redis_storage_iceb.Parser.Cut.{cons_head, cons_tail}
use lrued_redis_storage_iceb.Parser.Simple.{NoNewline}

module _ {W J : Type 0} (os : Os W J) {from to : ℕ} (link : IsLink os from to) where
  -- A read of one byte asks to try again.
  abbrev Waits : Globals W → Type 0
  Waits g =
      (w : W) × (read_data os (some from) 1 g ≡ ok (nothing, record g { world = w }))
      × (link.delivered w ≡ link.delivered g.world)
      × (link.pending w ≡ link.pending g.world)
      × (link.patience w < link.patience g.world)

  -- A byte is read and passed on.
  abbrev Passes : ℕ → Text → Globals W → Type 0
  Passes x xs g =
      (w1 : W) × (w : W) × (read_data os (some from) 1 g
        ≡ ok (bytes (x ∷ []), record g { world = w1 }))
      × (to_slave os (x ∷ []) (record g { world = w1 }) ≡ ok (true, record g { world = w }))
      × (link.delivered w ≡ link.delivered g.world ++ (x ∷ []))
      × (link.pending w ≡ xs)

  next_byte :
      (master x : ℕ) (xs : Text) (g : Globals W)
      → g.master_fd ≡ some master
      → g.client_fd ≡ some to
      → link.pending g.world ≡ x ∷ xs
      → link.bound * 2 + 1 < os.rounds
      → Waits g ⊎ Passes x xs g
  unfolding budget
  next_byte master x xs g em ec at enough =
      let w1 = (os.read from 1 g.world).1 in
      elim (link.reads 1 g.world (omega arith) (omega (arith, ap length at))) [
        | inl (c, [], got, fits, split, arrived) ↦
            let same_byte : c ≡ x = cons_head (sym split ∙ at) in
            let (w, sends, arrived', same) =
              to_slave-sends os link master (x ∷ []) (record g { world = w1 }) em ec
                (omega (arith, enough)) in
            inr (
              w1,
              w,
              read_data-bytes os from 1 master x [] g em (got ∙ ap (λ b. some (b ∷ [])) same_byte),
              sends,
              arrived' ∙ ap (λ l. l ++ (x ∷ [])) arrived,
              same ∙ cons_tail (sym split ∙ at),
            )
        | inl (c, d ∷ t, got, fits, split, arrived) ↦ absurd (omega (arith, fits))
        | inr (got, again, arrived, same, less) ↦
            inl (w1, read_data-nothing os from 1 master g em got again, arrived, same, less)
      ]

  module _ (rounds : ℕ) (kept : Text) (g g1 : Globals W) (fits : length kept < max_read) where
    line-waits :
        read_data os (some from) 1 g ≡ ok (nothing, g1)
        → sync_line os (suc rounds) (some from) kept g ≡ sync_line os rounds (some from) kept g1
    unfolding sync_line
    line-waits e = ground (arith, fits, e)

    module _ (g2 : Globals W) (x : ℕ) (got : read_data os (some from) 1 g ≡ ok (bytes (x ∷ []), g1))
        (sent : to_slave os (x ∷ []) g1 ≡ ok (true, g2)) where
      line-takes :
          x ≢ 10
          → sync_line os (suc rounds) (some from) kept g
            ≡ sync_line os rounds (some from) (kept ++ (x ∷ [])) g2
      unfolding sync_line
      line-takes h = ground (arith, fits, got, sent, h)

      line-skips :
          x ≡ 10
          → length kept ≡ 0
          → sync_line os (suc rounds) (some from) kept g ≡ sync_line os rounds (some from) kept g2
      unfolding sync_line
      line-skips h h' = ground (arith, fits, got, sent, h, h')

      line-ends :
          x ≡ 10
          → 0 < length kept
          → sync_line os (suc rounds) (some from) kept g ≡ ok (some kept, g2)
      unfolding sync_line
      line-ends h h' = ground (arith, fits, got, sent, h, h')

  -- What the loop over the announcement leaves: `line` without what ends it.
  abbrev pub Announced : Text → Text → Text → Globals W → Run (Option Text × Globals W) → Type 0
  Announced text line rest g r =
      (w : W) × (r ≡ ok (some line, record g { world = w }))
      × (link.delivered w ≡ link.delivered g.world ++ text)
      × (link.pending w ≡ rest)

  -- One step of the loop, and what it leaves from there.
  behind_byte :
      {line rest : Text} (x : ℕ) (text : Text) (g : Globals W) (w : W)
      (r r' : Run (Option Text × Globals W))
      → link.delivered w ≡ link.delivered g.world ++ (x ∷ [])
      → r ≡ r'
      → Announced text line rest (record g { world = w }) r'
      → Announced (x ∷ text) line rest g r
  behind_byte x text g w r r' arrived step (w', runs, arrived', left) = (
    w',
    step ∙ runs,
    arrived' ∙ ap (λ l. l ++ text) arrived ∙ append_assoc (link.delivered g.world) (x ∷ []) text,
    left,
  )

  behind_wait :
      {line rest : Text} (text : Text) (g : Globals W) (w : W)
      (r r' : Run (Option Text × Globals W))
      → link.delivered w ≡ link.delivered g.world
      → r ≡ r'
      → Announced text line rest (record g { world = w }) r'
      → Announced text line rest g r
  behind_wait text g w r r' arrived step (w', runs, arrived', left) =
      (w', step ∙ runs, arrived' ∙ ap (λ l. l ++ text) arrived, left)

  module _ (master : ℕ) (rest : Text) (enough : link.bound * 2 + 1 < os.rounds) where
    line_end :
        (rounds : ℕ) (kept todo : Text) (g : Globals W)
        → g.master_fd ≡ some master
        → g.client_fd ≡ some to
        → NoNewline todo
        → 0 < length kept + length todo
        → length kept + length todo < max_read
        → link.pending g.world ≡ todo ++ (10 ∷ rest)
        → budget link.bound (todo ++ (10 ∷ [])) + link.patience g.world < rounds
        → Announced
            (todo ++ (10 ∷ []))
            (kept ++ todo)
            rest
            g
            (sync_line os rounds (some from) kept g)
    unfolding budget
    line_end zero kept todo g em ec v some_bytes fits at long = absurd (omega arith)
    line_end (suc rounds) kept [] g em ec v some_bytes fits at long =
        elim (next_byte master 10 rest g em ec at enough) [
          | inl (w, e, arrived, same, less) ↦
              behind_wait _ g w _ _ arrived (line-waits rounds kept g _ (omega (arith, fits)) e) (
                line_end rounds kept [] (record g { world = w }) em ec v some_bytes fits (same ∙ at)
                  (omega (arith, long, less)))
          | inr (w1, w, got, sent, arrived, left) ↦ (
            w,
            line-ends rounds kept g _ (omega (arith, fits)) _ 10 got sent refl
                  (omega (arith, some_bytes))
                ∙ ap (λ l. ok (some l, record g { world = w })) (sym (append-nil kept)),
            arrived,
            left,
          )
        ]
    line_end (suc rounds) kept (x ∷ todo) g em ec v some_bytes fits at long =
        elim (next_byte master x (todo ++ (10 ∷ rest)) g em ec at enough) [
          | inl (w, e, arrived, same, less) ↦
              behind_wait _ g w _ _ arrived (line-waits rounds kept g _ (omega (arith, fits)) e) (
                line_end rounds kept (x ∷ todo) (record g { world = w }) em ec v some_bytes fits
                  (same ∙ at) (omega (arith, long, less)))
          | inr (w1, w, got, sent, arrived, left) ↦
              let sizes = length-append kept (x ∷ []) in
              behind_byte _ _ g w _ _ arrived
                (line-takes rounds kept g _ (omega (arith, fits)) _ x got sent v.0)
                (rw (← append_assoc kept (x ∷ []) todo) (
                  line_end rounds (kept ++ (x ∷ [])) todo (record g { world = w }) em ec v.1
                    (omega (arith, sizes)) (omega (arith, sizes, fits)) left
                    (omega (arith, long, link.patient w))))
        ]

    -- Newlines before the line are passed on and not kept.
    pub line_start :
        (n rounds : ℕ) (line : Text) (g : Globals W)
        → g.master_fd ≡ some master
        → g.client_fd ≡ some to
        → NoNewline line
        → 0 < length line
        → length line < max_read
        → link.pending g.world ≡ replicate n 10 ++ (line ++ (10 ∷ rest))
        → budget link.bound (replicate n 10 ++ (line ++ (10 ∷ []))) + link.patience g.world < rounds
        → Announced
            (replicate n 10 ++ (line ++ (10 ∷ [])))
            line
            rest
            g
            (sync_line os rounds (some from) [] g)
    unfolding budget
    line_start zero rounds line g em ec v some_bytes fits at long =
        line_end rounds [] line g em ec v (omega (arith, some_bytes)) (omega (arith, fits)) at long
    line_start (suc n) zero line g em ec v some_bytes fits at long = absurd (omega arith)
    line_start (suc n) (suc rounds) line g em ec v some_bytes fits at long =
        elim (next_byte master 10 (replicate n 10 ++ (line ++ (10 ∷ rest))) g em ec at enough) [
          | inl (w, e, arrived, same, less) ↦
              behind_wait _ g w _ _ arrived (line-waits rounds [] g _ (omega arith) e) (
                line_start (suc n) rounds line (record g { world = w }) em ec v some_bytes fits
                  (same ∙ at) (omega (arith, long, less)))
          | inr (w1, w, got, sent, arrived, left) ↦
              behind_byte _ _ g w _ _ arrived
                (line-skips rounds [] g _ (omega arith) _ 10 got sent refl refl)
                (line_start n rounds line (record g { world = w }) em ec v some_bytes fits left
                  (omega (arith, long, link.patient w)))
        ]
