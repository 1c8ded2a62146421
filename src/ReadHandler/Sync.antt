-- ===== src/ReadHandler/Sync.antt =====
-- SYNC_START_STATE of `readFromMaster` in proxy/read_handler.c, and the whole of a synchronisation:
-- the line that announces the size, and the payload.
use lrued_redis_storage_iceb.Prelude.{
  ℕ, ◌+◌, ◌^◌, ◌<◌, ◌≡◌, ◌≢◌, refl, false, some, none, [], ◌∷◌, ◌++◌, arith, length, replicate,
  ◌==◌, ◌∙◌, ap, append_assoc,
}
use lrued_redis_storage_iceb.State.{
  Fd, Text, Os, ok, fails, Globals, ◌>>=◌, ◌>>◌, pure, max_read, running, sync, sync_start,
}
use lrued_redis_storage_iceb.Io.Delivery.{IsLink, budget, budget-append}
use lrued_redis_storage_iceb.ReadHandler.{start_bulk, on_sync_start, read_from_master}
use lrued_redis_storage_iceb.ReadHandler.Relay.{on_sync-relays}
use lrued_redis_storage_iceb.Parser.Simple.{NoNewline}
use lrued_redis_storage_iceb.ReadHandler.Announce.{line_start}

module _ {W J : Type 0} (os : Os W J) {from to : ℕ} (link : IsLink os from to) where
  -- What stands before the payload.
  abbrev pub announcement : ℕ → Text → Text
  announcement n line = replicate n 10 ++ (line ++ (10 ∷ []))

  module _ (master n c : ℕ) (digits rest : Text) (is_size : c ≢ 45) (v : NoNewline (c ∷ digits))
      (fits : length digits + 1 < max_read)
      (enough : budget link.bound (announcement n (c ∷ digits)) + link.bound < os.rounds) where
    on_sync_start-announces :
        (g : Globals W)
        → g.master_fd ≡ some master
        → g.client_fd ≡ some to
        → link.pending g.world ≡ replicate n 10 ++ ((c ∷ digits) ++ (10 ∷ rest))
        → (w : W) × (on_sync_start os (some from) g
            ≡ ok (tt, record g { bulk_size = os.strtoull digits; phase = sync; world = w }))
          × (link.delivered w ≡ link.delivered g.world ++ announcement n (c ∷ digits))
          × (link.pending w ≡ rest)
    unfolding on_sync_start start_bulk budget
    on_sync_start-announces g em ec at =
        let two_bytes = budget-append link.bound (replicate n 10) ((c ∷ digits) ++ (10 ∷ [])) in
        let last_byte = budget-append link.bound digits (10 ∷ []) in
        let (w, runs, arrived, left) =
          line_start os link master rest (omega (arith, enough, two_bytes, last_byte)) n os.rounds
            (c ∷ digits) g em ec v (omega arith) (omega (arith, fits)) at
            (omega (arith, enough, link.patient g.world)) in
        let stays : (c == 45) ≡ false = ground (arith, is_size) in
        (
          w,
          ap (λ r. (fails r >>= λ line. elim line [ none ↦ pure tt | some l ↦ start_bulk os l ]) g)
                runs
              ∙ rw stays refl,
          arrived,
          left,
        )

  starts :
      (fd : Fd) (g : Globals W)
      → g.phase ≡ sync_start
      → read_from_master os fd g ≡ on_sync_start os fd g
  unfolding read_from_master
  starts fd g e = rw e refl

  -- A synchronisation: behind the announcement of a payload of the announced size, two calls of
  -- `readFromMaster` pass on announcement and payload byte for byte, leave what follows to be read,
  -- and end in RUNNING_STATE.
  pub read_from_master-syncs :
      (master n c : ℕ) (digits text rest : Text) (g : Globals W)
      → c ≢ 45
      → NoNewline (c ∷ digits)
      → length digits + 1 < max_read
      → os.strtoull digits ≡ length text
      → length text < 2 ^ 63
      → budget link.bound (announcement n (c ∷ digits)) + link.bound < os.rounds
      → budget link.bound text + link.bound < os.rounds
      → g.master_fd ≡ some master
      → g.client_fd ≡ some to
      → g.phase ≡ sync_start
      → link.pending g.world ≡ replicate n 10 ++ ((c ∷ digits) ++ (10 ∷ (text ++ rest)))
      → (w : W) × ((read_from_master os (some from) >> read_from_master os (some from)) g
          ≡ ok (tt, record g { bulk_size = 0; phase = running; world = w }))
        × (link.delivered w ≡ link.delivered g.world ++ (announcement n (c ∷ digits) ++ text))
        × (link.pending w ≡ rest)
  unfolding read_from_master
  read_from_master-syncs master n c digits text rest g is_size v fits size small enough enough' em
        ec ep at =
      let (w1, announces, arrived, left) =
        on_sync_start-announces master n c digits (text ++ rest) is_size v fits enough g em ec at in
      let g1 = record g { bulk_size = os.strtoull digits; phase = sync; world = w1 } in
      let (w, relays, arrived', left') =
        on_sync-relays os link master text rest g1 em ec size small left enough' in
      let first : read_from_master os (some from) g ≡ ok (tt, g1) =
        starts (some from) g ep ∙ announces in
      (
        w,
        ap (λ r. (fails r >> read_from_master os (some from)) g) first ∙ relays,
        arrived'
            ∙ ap (λ l. l ++ text) arrived
            ∙ append_assoc (link.delivered g.world) (announcement n (c ∷ digits)) text,
        left',
      )
