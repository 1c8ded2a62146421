-- ===== src/Queries/Asked.antt =====
-- The queries for the keys of DEL commands, on a connection that takes what is written: `queryKey`
-- of proxy/lrued_query.c with `writeData` of proxy/io.c.
use lrued_redis_storage_iceb.Prelude.{
  ℕ, zero, suc, ◌+◌, ◌≤◌, ◌<◌, ◌≡◌, refl, false, some, List, [], ◌∷◌, ◌++◌, map, arith, length,
  drop, ◌∙◌, ap, sym, length-append, append_assoc, append-nil,
}
use lrued_redis_storage_iceb.CirQueue.{CirQueue, is_full_cir_queue}
use lrued_redis_storage_iceb.CirQueue.Valid.{IsValid}
use lrued_redis_storage_iceb.CirQueue.Fifo.{push_fifo}
use lrued_redis_storage_iceb.CirQueue.Refine.{contents, length-contents, is_full_lem, push_refines}
use lrued_redis_storage_iceb.State.{Text, Os, ok, fails, Globals, ◌>>◌}
use lrued_redis_storage_iceb.Io.Delivery.{reconnect-set}
use lrued_redis_storage_iceb.Io.{write_loop, write_to, write_data}
use lrued_redis_storage_iceb.LruedQuery.{hgetall, query_key}
use lrued_redis_storage_iceb.LruedQuery.Del.{Del, ask, ask_all}

-- Every `write` takes the whole text, and `writeData` may go round twice.
pub record IsOpen {W J : Type 0} (os : Os W J) : Type 0 where
  pub takes_all : (fd : ℕ) (text : Text) (w : W) → (os.write fd text w).0.sent ≡ some (length text)
  pub two_rounds : 2 ≤ os.rounds

-- Both connections are there.
pub record IsConnected {W : Type 0} (fd : ℕ) (g : Globals W) : Type 0 where
  pub master : ℕ
  pub to_master : g.master_fd ≡ some master
  pub to_slave : g.read_fd ≡ some fd

abbrev pub keys_of : List Del → List Text
keys_of ds = map (λ d. d.key) ds

-- The world after a query for each key, the byte behind `cmp` looked at before each.
unfoldable pub asked : {W J : Type 0} → Os W J → ℕ → List Del → W → W
asked os fd [] w = w
asked os fd (d ∷ ds) w =
    asked os fd ds (os.write fd (hgetall (length d.key) d.key) (os.uninitialised w).1).1

module _ {W J : Type 0} (os : Os W J) (ready : IsOpen os) where
  drop_all : (l : Text) → drop (length l) l ≡ []
  drop_all [] = refl
  drop_all (x ∷ l) = drop_all l

  pub write_loop-open :
      (rounds fd c : ℕ) (text : Text) (g : Globals W)
      → 2 ≤ rounds
      → write_loop os rounds fd 0 (c ∷ text) g
        ≡ ok (some (length (c ∷ text)), record g { world = (os.write fd (c ∷ text) g.world).1 })
  unfolding write_loop
  write_loop-open zero fd c text g h = absurd (omega arith)
  write_loop-open (suc zero) fd c text g h = absurd (omega arith)
  write_loop-open (suc (suc rounds)) fd c text g h =
      ground (arith, ready.takes_all fd (c ∷ text) g.world, drop_all text)

  pub write_data-open :
      (fd master : ℕ) (text : Text) (g : Globals W)
      → 0 < length text
      → g.master_fd ≡ some master
      → write_data os (some fd) text g
        ≡ ok (some (length text), record g { world = (os.write fd text g.world).1 })
  unfolding write_data write_to
  write_data-open fd master [] g some_text e = absurd (omega arith)
  write_data-open fd master (c ∷ text) g some_text e =
      ap (λ r. (fails r >> write_to os (some fd) (c ∷ text)) g) (reconnect-set os master g e)
      ∙ write_loop-open os.rounds fd c text g ready.two_rounds

  -- The query is written, and the key waits behind the others.
  query_key-open :
      (fd : ℕ) (key : Text) (g : Globals W)
      → IsConnected fd g
      → IsValid g.queue
      → length (contents g.queue) < 4095
      → (q : CirQueue Text) × (query_key os (length key) key g
          ≡ ok (
            tt,
            record g { queue = q; world = (os.write fd (hgetall (length key) key) g.world).1 },
          ))
        × IsValid q
        × (contents q ≡ contents g.queue ++ (some key ∷ []))
  unfolding query_key push_fifo
  query_key-open fd key g on v room =
      let (q, runs, valid, holds) = push_refines (some key) v in
      let text = hgetall (length key) key in
      let full : is_full_cir_queue g.queue ≡ some (false, g.queue) =
        is_full_lem v ∙ ap (λ b. some (b, g.queue)) (ground (arith, length-contents g.queue)) in
      let wrote =
        write_data-open fd on.master text g (unfold hgetall in omega arith) on.to_master in
      (
        q,
        ground (arith, full, on.to_slave, wrote, runs),
        valid,
        holds ∙ ground (arith, length-contents g.queue),
      )

  -- Every key of the commands is asked for and waits, in their order.
  pub ask_all-open :
      (fd : ℕ) (ds : List Del) (g : Globals W)
      → IsConnected fd g
      → IsValid g.queue
      → length (contents g.queue) + length ds ≤ 4095
      → (q : CirQueue Text) × (ask_all os ds g
          ≡ ok (tt, record g { queue = q; world = asked os fd ds g.world }))
        × IsValid q
        × (contents q ≡ contents g.queue ++ map some (keys_of ds))
  unfolding ask_all ask asked
  ask_all-open fd [] g on v room = (g.queue, refl, v, sym (append-nil (contents g.queue)))
  ask_all-open fd (d ∷ ds) g on v room =
      let looked = record g { world = (os.uninitialised g.world).1 } in
      let (q, runs, valid, holds) =
        query_key-open fd d.key looked
          (record { master = on.master; to_master = on.to_master; to_slave = on.to_slave }) v
          (omega arith) in
      let g1 = record looked {
        queue = q;
        world = (os.write fd (hgetall (length d.key) d.key) looked.world).1;
      } in
      let (q', runs', valid', holds') =
        ask_all-open fd ds g1
          (record { master = on.master; to_master = on.to_master; to_slave = on.to_slave }) valid
          (omega (arith, ap length holds, length-append (contents g.queue) (some d.key ∷ []))) in
      (
        q',
        ap (λ r. (fails r >> ask_all os ds) g) runs ∙ runs',
        valid',
        holds'
            ∙ ap (λ l. l ++ map some (keys_of ds)) holds
            ∙ append_assoc (contents g.queue) (some d.key ∷ []) (map some (keys_of ds)),
      )
