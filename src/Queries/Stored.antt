-- ===== src/Queries/Stored.antt =====
-- The answers meet the keys that wait: `popHandle` of proxy/parser.c.
use lrued_redis_storage_iceb.Prelude.{
  ◌≡◌, refl, Option, none, some, List, [], ◌∷◌, map, arith, ◌∙◌, ap,
}
use lrued_redis_storage_iceb.CirQueue.{CirQueue, pop_cir_queue}
use lrued_redis_storage_iceb.CirQueue.Valid.{IsValid}
use lrued_redis_storage_iceb.CirQueue.Fifo.{pop_fifo}
use lrued_redis_storage_iceb.CirQueue.Refine.{contents, pop_refines}
use lrued_redis_storage_iceb.State.{
  Text, Os, Run, ok, exits, undefined, hangs, Globals, ◌>>◌, fails,
}
use lrued_redis_storage_iceb.Store.{object}
use lrued_redis_storage_iceb.Parser.{pop_handle}
use lrued_redis_storage_iceb.Parser.Reply.{set_fields}
use lrued_redis_storage_iceb.Parser.Answers.{Answer, handle_all}
use lrued_redis_storage_iceb.Parser.Blind.{
  map_run, IsApart, IsBlind, bind-IsBlind, pure-IsBlind, exits-IsBlind, save_value-IsBlind,
}
use lrued_redis_storage_iceb.Queries.{with_queue, store_one, store_all}

module _ {W J : Type 0} (os : Os W J) where
  module _ (put : Globals W → Globals W) (apart : IsApart put) where
    pub store_one-IsBlind : (a : Answer) (key : Text) → IsBlind put (store_one os a key)
    unfolding store_one
    store_one-IsBlind a key =
        bind-IsBlind put _ _
          (save_value-IsBlind put os apart (object (set_fields os os.json_object a.fields)) key)
          (λ _. pure-IsBlind put tt)

    pub store_all-IsBlind :
        (answers : List Answer) (keys : List Text) → IsBlind put (store_all os answers keys)
    unfolding store_all
    store_all-IsBlind [] keys = pure-IsBlind put tt
    store_all-IsBlind (a ∷ as') [] = exits-IsBlind put
    store_all-IsBlind (a ∷ as') (key ∷ keys) =
        bind-IsBlind put _ _ (store_one-IsBlind a key) (λ _. store_all-IsBlind as' keys)

  with_queue-IsApart : (q : CirQueue Text) → IsApart {W = W} (with_queue q)
  with_queue-IsApart q = record { hosts = λ g. refl; world = λ g. refl; store = λ g w. refl }

  -- `popHandle` stores under the key that was pushed first.
  pop_handle-key :
      (a : Answer) (key : Text) (g : Globals W) (q : CirQueue Text)
      → pop_cir_queue g.queue ≡ some (some key, q)
      → pop_handle os (object (set_fields os os.json_object a.fields)) g
        ≡ store_one os a key (with_queue q g)
  unfolding pop_handle store_one
  pop_handle-key a key g q e = ground (arith, e)

  pop_handle-exits :
      (a : Answer) (g : Globals W) (q : CirQueue Text)
      → pop_cir_queue g.queue ≡ some (none, q)
      → pop_handle os (object (set_fields os os.json_object a.fields)) g ≡ exits
  unfolding pop_handle
  pop_handle-exits a g q e = ground (arith, e)

  module _ (q0 : CirQueue Text) where
    -- What follows the storing of one value, however it ended.
    after_one :
        (as' : List Answer) (keys : List Text) (q : CirQueue Text) (g : Globals W)
        (r : Run (Unit {0} × Globals W))
        → ((g : Globals W)
            → g.queue ≡ q
            → map_run (with_queue q0) (handle_all os as' g)
              ≡ map_run (with_queue q0) (store_all os as' keys g))
        → map_run (with_queue q0) ((fails (map_run (with_queue q) r) >> handle_all os as') g)
          ≡ map_run (with_queue q0) ((fails r >> store_all os as' keys) g)
    unfolding map_run
    after_one as' keys q g (ok (tt, g1)) further =
        further (with_queue q g1) refl
        ∙ ap (map_run (with_queue q0))
            ((store_all-IsBlind (with_queue q) (with_queue-IsApart q) as' keys).blind g1)
        ∙ overwritten (store_all os as' keys g1)
      where
        overwritten :
            (r : Run (Unit {0} × Globals W))
            → map_run (with_queue q0) (map_run (with_queue q) r) ≡ map_run (with_queue q0) r
        overwritten (ok (a, g)) = refl
        overwritten exits = refl
        overwritten undefined = refl
        overwritten hangs = refl
    after_one as' keys q g exits further = refl
    after_one as' keys q g undefined further = refl
    after_one as' keys q g hangs further = refl

    -- The answers are stored under the keys that wait, the first under the oldest.
    pub handle_all-stores :
        (answers : List Answer) (keys : List Text) (g : Globals W)
        → IsValid g.queue
        → contents g.queue ≡ map some keys
        → map_run (with_queue q0) (handle_all os answers g)
          ≡ map_run (with_queue q0) (store_all os answers keys g)
    unfolding handle_all store_all pop_fifo
    handle_all-stores [] keys g v holds = refl
    handle_all-stores (a ∷ as') keys g v holds =
        let (out, q, runs, valid, front) = pop_refines v in
        by_keys keys out q runs (front ∙ ap pop_fifo holds)
          (λ ks e g' e'. handle_all-stores as' ks g' (rw e' valid) (ap contents e' ∙ e))
      where
        by_keys :
            (keys : List Text) (out : Option Text) (q : CirQueue Text)
            → pop_cir_queue g.queue ≡ some (out, q)
            → (out, contents q) ≡ pop_fifo (map some keys)
            → ((ks : List Text)
                → contents q ≡ map some ks
                → (g : Globals W) → g.queue ≡ q
                → map_run (with_queue q0) (handle_all os as' g)
                  ≡ map_run (with_queue q0) (store_all os as' ks g))
            → map_run (with_queue q0) (
                (pop_handle os (object (set_fields os os.json_object a.fields))
                    >> handle_all os as')
                  g)
              ≡ map_run (with_queue q0) (store_all os (a ∷ as') keys g)
        by_keys [] out q runs front further =
            ap (λ r. map_run (with_queue q0) ((fails r >> handle_all os as') g))
              (pop_handle-exits a g q (runs ∙ ap (λ o. some (o, q)) (ap (λ p. p.0) front)))
            ∙ unfold map_run in refl
        by_keys (key ∷ keys) out q runs front further =
            ap (λ r. map_run (with_queue q0) ((fails r >> handle_all os as') g))
              (pop_handle-key a key g q (runs ∙ ap (λ o. some (o, q)) (ap (λ p. p.0) front))
                ∙ (store_one-IsBlind (with_queue q) (with_queue-IsApart q) a key).blind g)
            ∙ after_one as' keys q g (store_one os a key g) (further keys (ap (λ p. p.1) front))
