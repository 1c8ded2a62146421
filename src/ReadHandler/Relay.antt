-- ===== src/ReadHandler/Relay.antt =====
-- SYNC_STATE of `readFromMaster` in proxy/read_handler.c: the payload of the master goes to the
-- slave byte for byte, and not a byte more.
use lrued_redis_storage_iceb.Prelude.{
  ℕ, zero, suc, ◌+◌, ◌-◌, ◌^◌, ◌≤◌, ◌<◌, ◌≡◌, refl, inl, inr, true, Bool, some, none, [], ◌∷◌, ◌++◌,
  arith, length, min, ◌∙◌, ap, sym, length-append, append_assoc, append-nil,
}
use lrued_redis_storage_iceb.State.{
  Text, Os, Run, ok, fails, Globals, ◌>>=◌, ◌>>◌, when, modify, max_read, running, eagain,
}
use lrued_redis_storage_iceb.Io.{nothing, bytes, read_data, read_from, classify}
use lrued_redis_storage_iceb.Io.Delivery.{
  IsLink, budget, budget-append, reconnect-set, write_data-sends,
}
use lrued_redis_storage_iceb.ReadHandler.{to_slave, sync_payload, on_sync}
use lrued_redis_storage_iceb.Parser.Cut.{append_split}

-- What a part that is no longer than `xs` leaves of it.
front_of :
    (part missing xs ys : Text)
    → part ++ missing ≡ xs ++ ys
    → length part ≤ length xs
    → (tail : Text) × (xs ≡ part ++ tail) × (missing ≡ tail ++ ys)
front_of part missing xs ys e fits = elim (append_split part missing xs ys e) [
  | inl ([], e1, e2) ↦ ([], sym (append-nil xs) ∙ sym e1 ∙ sym (append-nil part), e2)
  | inl (m ∷ more, e1, e2) ↦ absurd (omega (arith, ap length e1, length-append xs (m ∷ more), fits))
  | inr (tail, h, e1, e2) ↦ (tail, e1, e2)
]

module _ {W J : Type 0} (os : Os W J) (from : ℕ) where
  pub read_data-bytes :
      (size master c : ℕ) (text : Text) (g : Globals W)
      → g.master_fd ≡ some master
      → (os.read from size g.world).0.got ≡ some (c ∷ text)
      → read_data os (some from) size g
        ≡ ok (bytes (c ∷ text), record g { world = (os.read from size g.world).1 })
  unfolding read_data read_from classify
  read_data-bytes size master c text g e got =
      ap (λ r. (fails r >> read_from os (some from) size) g) (reconnect-set os master g e)
      ∙ rw got refl

  pub read_data-nothing :
      (size master : ℕ) (g : Globals W)
      → g.master_fd ≡ some master
      → (os.read from size g.world).0.got ≡ none
      → (os.read from size g.world).0.errno ≡ eagain
      → read_data os (some from) size g
        ≡ ok (nothing, record g { world = (os.read from size g.world).1 })
  unfolding read_data read_from classify
  read_data-nothing size master g e got again =
      ap (λ r. (fails r >> read_from os (some from) size) g) (reconnect-set os master g e)
      ∙ rw (got, again) refl

module _ {W J : Type 0} (os : Os W J) {from to : ℕ} (link : IsLink os from to) where
  pub to_slave-sends :
      (master : ℕ) (text : Text) (g : Globals W)
      → g.master_fd ≡ some master
      → g.client_fd ≡ some to
      → budget link.bound text + link.bound < os.rounds
      → (w : W) × (to_slave os text g ≡ ok (true, record g { world = w }))
        × (link.delivered w ≡ link.delivered g.world ++ text)
        × (link.pending w ≡ link.pending g.world)
  unfolding to_slave
  to_slave-sends master text g e e' enough =
      let (w, runs, arrived, same) = write_data-sends os link master text g e enough in
      (w, ground (arith, e', runs), arrived, same)

  module _ (rounds : ℕ) (g : Globals W) (size : ℕ) (sized : min g.bulk_size max_read ≡ size)
      (more : 0 < g.bulk_size) (small : g.bulk_size < 2 ^ 63) where
    round-nothing :
        (g1 : Globals W)
        → read_data os (some from) size g ≡ ok (nothing, g1)
        → sync_payload os (suc rounds) (some from) g ≡ sync_payload os rounds (some from) g1
    unfolding sync_payload
    round-nothing g1 e = ground (arith, sized, e)

    round-bytes :
        (text : Text) (g1 g2 : Globals W)
        → read_data os (some from) size g ≡ ok (bytes text, g1)
        → to_slave os text g1 ≡ ok (true, g2)
        → sync_payload os (suc rounds) (some from) g
          ≡ sync_payload os rounds
              (some from)
              (record g2 { bulk_size = g2.bulk_size - length text })
    unfolding sync_payload
    round-bytes text g1 g2 e e' = ground (arith, sized, e, e')

  -- What the loop over the payload leaves.
  abbrev pub Relayed : Text → Text → Globals W → Run (Bool × Globals W) → Type 0
  Relayed text rest g r =
      (w : W) × (r ≡ ok (true, record g { bulk_size = 0; world = w }))
      × (link.delivered w ≡ link.delivered g.world ++ text)
      × (link.pending w ≡ rest)

  -- What is left to relay, behind a part that was read and passed on.
  behind_part :
      (rounds : ℕ) (t tail rest : Text) (g : Globals W) (w2 : W)
      → link.delivered w2 ≡ link.delivered g.world ++ t
      → sync_payload os (suc rounds) (some from) g
        ≡ sync_payload os rounds
            (some from)
            (record g { world = w2; bulk_size = g.bulk_size - length t })
      → Relayed tail rest
          (record g { world = w2; bulk_size = g.bulk_size - length t })
          (sync_payload os rounds
            (some from)
            (record g { world = w2; bulk_size = g.bulk_size - length t }))
      → Relayed (t ++ tail) rest g (sync_payload os (suc rounds) (some from) g)
  behind_part rounds t tail rest g w2 arrived step (w, runs, arrived', left) = (
    w,
    step ∙ runs,
    arrived' ∙ ap (λ l. l ++ tail) arrived ∙ append_assoc (link.delivered g.world) t tail,
    left,
  )

  pub sync_payload-relays :
      (rounds master : ℕ) (text rest : Text) (g : Globals W)
      → g.master_fd ≡ some master
      → g.client_fd ≡ some to
      → g.bulk_size ≡ length text
      → length text < 2 ^ 63
      → link.pending g.world ≡ text ++ rest
      → budget link.bound text + link.bound < os.rounds
      → budget link.bound text + link.patience g.world < rounds
      → Relayed text rest g (sync_payload os rounds (some from) g)
  unfolding budget
  sync_payload-relays zero master text rest g em ec es small at long enough = absurd (omega arith)
  sync_payload-relays (suc rounds) master [] rest g em ec es small at long enough =
      (g.world, unfold sync_payload in rw es refl, sym (append-nil (link.delivered g.world)), at)
  sync_payload-relays (suc rounds) master (x ∷ xs) rest g em ec es small at long enough =
      let size = min g.bulk_size max_read in
      let more : 0 < g.bulk_size = omega (arith, es) in
      let bounded : g.bulk_size < 2 ^ 63 = rw es small in
      let w1 = (os.read from size g.world).1 in
      let g1 : Globals W = record g { world = w1 } in
      elim (link.reads size g.world (omega arith)
        (omega (arith, ap length at, length-append (x ∷ xs) rest))) [
          | inl (c, t, got, fits, split, arrived) ↦
              let (tail, front, left) =
                front_of (c ∷ t) (link.pending w1) (x ∷ xs) rest (sym split ∙ at)
                  (omega (arith, es, fits)) in
              let costs = ap (budget link.bound) front ∙ budget-append link.bound (c ∷ t) tail in
              let sizes = ap length front ∙ length-append (c ∷ t) tail in
              let (w2, sends, arrived', same) =
                to_slave-sends master (c ∷ t) g1 em ec (omega (arith, costs, long)) in
              rw front (
                behind_part rounds (c ∷ t) tail rest g w2
                  (arrived' ∙ ap (λ l. l ++ (c ∷ t)) arrived)
                  (round-bytes rounds g size refl more bounded (c ∷ t) g1 (record g { world = w2 })
                    (read_data-bytes os from size master c t g em got) sends)
                  (sync_payload-relays rounds master tail rest
                    (record g { world = w2; bulk_size = g.bulk_size - length (c ∷ t) }) em ec
                    (omega (arith, es, sizes)) (omega (arith, sizes, small)) (same ∙ left)
                    (omega (arith, costs, long)) (omega (arith, costs, enough, link.patient w2))))
          | inr (got, again, arrived, same, less) ↦
              let (w, runs, arrived', left) =
                sync_payload-relays rounds master (x ∷ xs) rest g1 em ec es small (same ∙ at) long
                  (omega (arith, enough, less)) in
              (
                w,
                round-nothing rounds g size refl more bounded g1
                      (read_data-nothing os from size master g em got again)
                    ∙ runs,
                arrived' ∙ ap (λ l. l ++ (x ∷ xs)) arrived,
                left,
              )
        ]

  -- SYNC_STATE: where the master sends a payload of the announced size and then `rest`, the handler
  -- passes the payload on to the slave byte for byte, leaves `rest` to be read, and goes on to
  -- RUNNING_STATE.
  pub on_sync-relays :
      (master : ℕ) (text rest : Text) (g : Globals W)
      → g.master_fd ≡ some master
      → g.client_fd ≡ some to
      → g.bulk_size ≡ length text
      → length text < 2 ^ 63
      → link.pending g.world ≡ text ++ rest
      → budget link.bound text + link.bound < os.rounds
      → (w : W) × (on_sync os (some from) g
          ≡ ok (tt, record g { bulk_size = 0; phase = running; world = w }))
        × (link.delivered w ≡ link.delivered g.world ++ text)
        × (link.pending w ≡ rest)
  unfolding on_sync
  on_sync-relays master text rest g em ec es small at long =
      let (w, runs, arrived, left) =
        sync_payload-relays os.rounds master text rest g em ec es small at long
          (omega (arith, link.patient g.world)) in
      (
        w,
        ap (λ r. (fails r >>= λ done. when done (modify (λ g. record g { phase = running }))) g)
            runs,
        arrived,
        left,
      )
