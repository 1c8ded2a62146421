-- ===== src/LruedQuery/Query.antt =====
-- What `queryKey` of proxy/lrued_query.c sends to the slave, over a connection that goes on taking
-- bytes.
use lrued_redis_storage_iceb.Prelude.{
  ℕ, ◌+◌, ◌<◌, ◌≡◌, false, some, [], ◌∷◌, ◌++◌, arith, codes, length, strncpy, ◌∙◌, ap, sym,
  append_assoc, append-nil,
}
use lrued_redis_storage_iceb.CirQueue.{CirQueue, is_full_cir_queue}
use lrued_redis_storage_iceb.CirQueue.Fifo.{push_fifo}
use lrued_redis_storage_iceb.CirQueue.Valid.{IsValid}
use lrued_redis_storage_iceb.CirQueue.Refine.{contents, length-contents, is_full_lem, push_refines}
use lrued_redis_storage_iceb.State.{Text, Os, Globals, Run, ok}
use lrued_redis_storage_iceb.Io.Delivery.{IsLink, budget, write_data-sends}
use lrued_redis_storage_iceb.Parser.Number.{NoNul, strncpy_whole}
use lrued_redis_storage_iceb.LruedQuery.{hgetall, query_key}

NoNul-append : (xs ys : Text) → NoNul xs → NoNul ys → NoNul (xs ++ ys)
NoNul-append [] ys h h' = h'
NoNul-append (x ∷ xs) ys h h' = (h.0, NoNul-append xs ys h.1 h')

hgetall_whole :
    (key : Text)
    → NoNul key
    → hgetall (length key) key ≡ codes "hgetall " ++ (key ++ (13 ∷ 10 ∷ []))
unfolding hgetall
hgetall_whole key v =
    ap (λ k. codes "hgetall " ++ (k ++ (13 ∷ 10 ∷ [])))
      (ap (strncpy (length key)) (sym (append-nil key)) ∙ strncpy_whole key [] v)

module _ {W J : Type 0} (os : Os W J) {from to : ℕ} (link : IsLink os from to) where
  -- What a query leaves: `text` was delivered, and `key` waits behind the others.
  abbrev pub Asked : Text → Text → Globals W → Run (Unit {0} × Globals W) → Type 0
  Asked text key g r =
      (w : W) × (q : CirQueue Text) × (r ≡ ok (tt, record g { queue = q; world = w }))
      × IsValid q
      × (contents q ≡ contents g.queue ++ (some key ∷ []))
      × (link.delivered w ≡ link.delivered g.world ++ text)

  -- With room in the queue, queryKey delivers the whole command to the slave, in any number of
  -- writes, and puts the key behind those that wait.
  pub query_key-delivers :
      (master : ℕ) (key : Text) (g : Globals W)
      → IsValid g.queue
      → g.queue.count < 4095
      → NoNul key
      → g.master_fd ≡ some master
      → g.read_fd ≡ some to
      → budget link.bound (codes "hgetall " ++ (key ++ (13 ∷ 10 ∷ []))) + link.bound < os.rounds
      → Asked (codes "hgetall " ++ (key ++ (13 ∷ 10 ∷ []))) key g (query_key os (length key) key g)
  unfolding query_key push_fifo
  query_key-delivers master key g v room clean em er enough =
      let (q, runs, valid, holds) = push_refines (some key) v in
      let text = codes "hgetall " ++ (key ++ (13 ∷ 10 ∷ [])) in
      let (w, sends, arrived, same) = write_data-sends os link master text g em enough in
      let full : is_full_cir_queue g.queue ≡ some (false, g.queue) =
        is_full_lem v ∙ ap (λ b. some (b, g.queue)) (ground (arith, room)) in
      (
        w,
        q,
        ground (arith, full, er, hgetall_whole key clean, sends, runs),
        valid,
        holds ∙ ground (arith, length-contents g.queue, room),
        arrived,
      )

  -- A key with a line end in it: the slave is sent two lines, a query for the part before the line
  -- end and the other part as a command of its own, and one key waits for their answers.
  pub query_key-injects :
      (master : ℕ) (key command : Text) (g : Globals W)
      → IsValid g.queue
      → g.queue.count < 4095
      → NoNul key
      → NoNul command
      → g.master_fd ≡ some master
      → g.read_fd ≡ some to
      → budget link.bound (hgetall (length key) key ++ (command ++ (13 ∷ 10 ∷ []))) + link.bound
        < os.rounds
      → let both = key ++ (13 ∷ 10 ∷ command) in
        Asked
          (hgetall (length key) key ++ (command ++ (13 ∷ 10 ∷ [])))
          both
          g
          (query_key os (length both) both g)
  query_key-injects master key command g v room clean clean' em er enough =
      let both = key ++ (13 ∷ 10 ∷ command) in
      let line_end : Text = 13 ∷ 10 ∷ [] in
      let lines : codes "hgetall " ++ (both ++ line_end)
          ≡ hgetall (length key) key ++ (command ++ line_end) =
        ap (λ l. codes "hgetall " ++ l) (append_assoc key (13 ∷ 10 ∷ command) line_end)
        ∙ sym (
            ap (λ l. l ++ (command ++ line_end)) (hgetall_whole key clean)
            ∙ ap (λ l. codes "hgetall " ++ l) (append_assoc key line_end (command ++ line_end))) in
      let safe : NoNul both =
        NoNul-append key (13 ∷ 10 ∷ command) clean (omega arith, (omega arith, clean')) in
      rw (← lines) (query_key-delivers master both g v room safe em er (rw lines enough))
