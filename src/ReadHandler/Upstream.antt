-- ===== src/ReadHandler/Upstream.antt =====
-- `readFromSlave` of proxy/read_handler.c: what the slave says goes to the master.
use lrued_redis_storage_iceb.Prelude.{
  ℕ, ◌+◌, ◌<◌, ◌≡◌, refl, Bool, true, Bool-cases, inl, inr, some, [], ◌∷◌, ◌++◌, ◌==◌, ◌&&◌,
  if◌then◌else◌, arith, codes, length, ◌≢◌, strncpy, Order, strcmp, ◌∙◌, ap, sym, append-nil,
}
use lrued_redis_storage_iceb.HashTable.Strcmp.{eq_of_same}
use lrued_redis_storage_iceb.State.{
  Text, Os, M, Phase, sync_start, ok, fails, Globals, ◌>>=◌, ◌>>◌, pure, when, modify, gets,
  max_read,
}
use lrued_redis_storage_iceb.Io.{bytes, write_data}
use lrued_redis_storage_iceb.Io.Delivery.{IsLink, budget, write_data-sends}
use lrued_redis_storage_iceb.LruedQuery.{same_text}
use lrued_redis_storage_iceb.Parser.Number.{NoNul, strncpy_whole}
use lrued_redis_storage_iceb.ReadHandler.{read_from_slave}
use lrued_redis_storage_iceb.ReadHandler.Relay.{read_data-bytes}

-- `SYNC\r\n`
abbrev pub sync_command : Text
sync_command = codes "SYNC" ++ (13 ∷ 10 ∷ [])

module _ {W J : Type 0} (os : Os W J) {from to : ℕ} (link : IsLink os from to) where
  -- Whether a read is the SYNC command and nothing else.
  abbrev is_sync : Text → Bool
  is_sync text = (length text == 6) && same_text sync_command (strncpy 6 text)

  is_sync-sync_command : is_sync sync_command ≡ true
  unfolding strncpy strcmp
  is_sync-sync_command = refl

  is_sync-other : (text : Text) → NoNul text → is_sync text ≡ true → text ≡ sync_command
  is_sync-other text v e =
      let six : length text ≡ 6 = ground (arith, e) in
      let copied : strncpy 6 text ≡ text =
        ap (λ n. strncpy n text) (sym six)
        ∙ ap (strncpy (length text)) (sym (append-nil text))
        ∙ strncpy_whole text [] v in
      let same : strcmp sync_command (strncpy 6 text) ≡ Order.same = ground (arith, e) in
      sym (eq_of_same sync_command (strncpy 6 text) same ∙ copied)

  -- The state behind the test.
  abbrev heard : Text → Phase → Phase
  heard text p = if is_sync text then sync_start else p

  heard_lem :
      (text : Text) (p : Phase)
      → NoNul text
      → (text ≡ sync_command → heard text p ≡ sync_start) × (text ≢ sync_command → heard text p ≡ p)
  heard_lem text p v = (
    λ e. rw (e, is_sync-sync_command) refl,
    λ h. elim (Bool-cases (is_sync text)) [
      | inl hit ↦ absurd (h (is_sync-other text v hit))
      | inr miss ↦ rw miss refl
    ],
  )

  when-heard :
      (text : Text) (g : Globals W)
      → when (is_sync text) (modify (λ h. record h { phase = sync_start })) g
        ≡ ok (tt, record g { phase = heard text g.phase })
  when-heard text g = elim (Bool-cases (is_sync text)) [
    | inl hit ↦ rw hit refl
    | inr miss ↦ rw miss refl
  ]

  -- The write to the master.
  abbrev onward : Text → M W (Unit {0})
  onward text = gets (λ h. h.master_fd) >>= λ master. write_data os master text >>= λ wr. pure tt

  -- Whatever the slave says is delivered to the master whole, in however many writes, and makes the
  -- proxy wait for a synchronisation exactly if it is the command SYNC: otherwise the state stays.
  -- Nothing else changes. The master is connected and goes on taking bytes, the rounds are enough,
  -- and there is no NUL in what was read.
  pub read_from_slave-forwards :
      (c : ℕ) (text : Text) (g : Globals W)
      → NoNul (c ∷ text)
      → g.master_fd ≡ some to
      → (os.read from max_read g.world).0.got ≡ some (c ∷ text)
      → budget link.bound (c ∷ text) + link.bound < os.rounds
      → (p : Phase) × (w : W) × (read_from_slave os (some from) g
          ≡ ok (tt, record g { phase = p; world = w }))
        × (link.delivered w ≡ link.delivered (os.read from max_read g.world).1 ++ (c ∷ text))
        × (c ∷ text ≡ sync_command → p ≡ sync_start)
        × (c ∷ text ≢ sync_command → p ≡ g.phase)
  unfolding read_from_slave
  read_from_slave-forwards c text g v em got enough =
      let p = heard (c ∷ text) g.phase in
      let g1 : Globals W = record g { world = (os.read from max_read g.world).1 } in
      let g2 : Globals W = record g1 { phase = p } in
      let (w, sends, arrived, same) = write_data-sends os link to (c ∷ text) g2 em enough in
      let (hit, miss) = heard_lem (c ∷ text) g.phase v in
      (
        p,
        w,
        ap
              (λ r.
                (fails r >>= λ got'. elim got' as (λ x. M W (Unit {0})) [
                  | bytes t ↦
                      (when (is_sync t) (modify (λ h. record h { phase = sync_start })) >> onward t)
                  | _ ↦ pure tt
                ])
                  g)
              (read_data-bytes os from max_read to c text g em got)
            ∙ ap (λ r. (fails r >> onward (c ∷ text)) g1) (when-heard (c ∷ text) g1)
            ∙ ap (λ m. (write_data os m (c ∷ text) >>= λ wr. pure tt) g2) em
            ∙ ap (λ r. (fails r >>= λ wr. pure tt) g2) sends,
        arrived,
        hit,
        miss,
      )
