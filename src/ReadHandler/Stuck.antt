-- ===== src/ReadHandler/Stuck.antt =====
-- SYNC_STATE of `readFromMaster` in proxy/read_handler.c after the master has closed the connection.
use lrued_redis_storage_iceb.Prelude.{
  ℕ, zero, suc, ◌^◌, ◌<◌, ◌≡◌, refl, some, [], arith, min, ◌∙◌, ap,
}
use lrued_redis_storage_iceb.State.{Os, ok, hangs, fails, Globals, ◌>>◌, max_read, eagain}
use lrued_redis_storage_iceb.Io.{nothing, read_data, read_from, classify}
use lrued_redis_storage_iceb.Io.Delivery.{reconnect-set}
use lrued_redis_storage_iceb.ReadHandler.{sync_payload}

module _ {W J : Type 0} (os : Os W J) (from : ℕ) where
  -- At the end of the input, with EAGAIN left in errno by an earlier call, readData reports nothing.
  read_data-end :
      (size master : ℕ) (g : Globals W)
      → g.master_fd ≡ some master
      → (os.read from size g.world).0.got ≡ some []
      → (os.read from size g.world).0.errno ≡ eagain
      → read_data os (some from) size g
        ≡ ok (nothing, record g { world = (os.read from size g.world).1 })
  unfolding read_data read_from classify
  read_data-end size master g e ended again =
      ap (λ r. (fails r >> read_from os (some from) size) g) (reconnect-set os master g e)
      ∙ rw (ended, again) refl

  round-end :
      (rounds size : ℕ) (g g1 : Globals W)
      → min g.bulk_size max_read ≡ size
      → 0 < g.bulk_size
      → g.bulk_size < 2 ^ 63
      → read_data os (some from) size g ≡ ok (nothing, g1)
      → sync_payload os (suc rounds) (some from) g ≡ sync_payload os rounds (some from) g1
  unfolding sync_payload
  round-end rounds size g g1 sized more small e = ground (arith, sized, e)

  -- If the master closes the connection before the payload is whole, and EAGAIN stands in errno, which
  -- read leaves alone at the end of the input, the loop over the payload ends in no number of rounds.
  pub sync_payload-stuck :
      (rounds master : ℕ) (g : Globals W)
      → g.master_fd ≡ some master
      → 0 < g.bulk_size
      → g.bulk_size < 2 ^ 63
      → ((size : ℕ) (w : W)
          → ((os.read from size w).0.got ≡ some []) × ((os.read from size w).0.errno ≡ eagain))
      → sync_payload os rounds (some from) g ≡ hangs
  sync_payload-stuck zero master g e more small closed = unfold sync_payload in refl
  sync_payload-stuck (suc rounds) master g e more small closed =
      let size = min g.bulk_size max_read in
      let ended = closed size g.world in
      let g1 : Globals W = record g { world = (os.read from size g.world).1 } in
      round-end rounds size g g1 refl more small (read_data-end size master g e ended.0 ended.1)
      ∙ sync_payload-stuck rounds master g1 e more small closed
