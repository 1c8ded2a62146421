-- ===== src/CirQueue/Refine.antt =====
-- proxy/cir_queue.c against the FIFO: a valid queue never blocks, and answers as the FIFO does.
use lrued_redis_storage_iceb.Prelude.{
  ℕ, zero, suc, ◌+◌, ◌-◌, ◌%◌, ◌<◌, ◌≡◌, refl, Option, none, some, List, ◌==◌, arith, length,
  length-set, get_or, ap, ap₂, Bool-cases, ◌∙◌, inl, inr, tabulate, length-tabulate, tabulate_congr,
  tabulate-suc_last, get_or-set_hit, get_or-set_miss, [], ◌∷◌, ◌++◌, sym,
}
use native.Mathlib.Numerals.{add-one}
use lrued_redis_storage_iceb.CirQueue.{
  CirQueue, que_size, ◌>>=◌, is_empty_cir_queue, is_full_cir_queue, write_rear, push_cir_queue,
  drop_front, pop_cir_queue, clear_loop, clear_queue, top_cir_queue, sem_wait, sem_post,
}
use lrued_redis_storage_iceb.CirQueue.Valid.{IsValid}
use lrued_redis_storage_iceb.CirQueue.Fifo.{
  Op, push, pop, top, clear, push_fifo, pop_fifo, step_fifo, run_fifo,
}

module _ {A : Type 0} where
  -- The elements that wait, the oldest first.
  abbrev pub contents : CirQueue A → List (Option A)
  contents q = tabulate q.count (λ k. get_or q.items ((q.front + k) % que_size) none)

  pub length-contents : (q : CirQueue A) → length (contents q) ≡ q.count
  length-contents q = length-tabulate q.count _

  contents_empty : (q : CirQueue A) → q.count ≡ 0 → contents q ≡ []
  contents_empty q e = ap (λ m. tabulate m (λ k. get_or q.items ((q.front + k) % que_size) none)) e

  is_empty_lem : {q : CirQueue A} → IsValid q → is_empty_cir_queue q ≡ some (q.count == 0, q)
  unfolding is_empty_cir_queue
  is_empty_lem {q} v = ground arith

  -- as `clear_queue` calls it, with one permit taken
  is_empty_held :
      {q : CirQueue A}
      → IsValid q
      → is_empty_cir_queue (record q { sem = q.sem - 1 })
        ≡ some (q.count == 0, record q { sem = q.sem - 1 })
  unfolding is_empty_cir_queue
  is_empty_held {q} v = ground arith

  pub is_full_lem : {q : CirQueue A} → IsValid q → is_full_cir_queue q ≡ some (q.count == 4095, q)
  unfolding is_full_cir_queue
  is_full_lem {q} v = ground arith

  write_rear-IsValid :
      {q : CirQueue A} (x : Option A) → IsValid q → q.count < 4095 → IsValid (write_rear q x)
  unfolding write_rear
  write_rear-IsValid {q} x v h = ground (arith, length-set q.items q.rear x)

  -- The write goes just behind the last element.
  contents-write_rear :
      {q : CirQueue A} (x : Option A)
      → IsValid q
      → q.count < 4095
      → contents (write_rear q x) ≡ contents q ++ (x ∷ [])
  unfolding write_rear
  contents-write_rear {q} x v h = rw add-one (
      tabulate-suc_last q.count _
      ∙ ap₂ (λ l y. l ++ (y ∷ []))
          (tabulate_congr q.count _ _
            (λ k lt. get_or-set_miss q.items q.rear _ x none (omega arith)))
          (rw (← v.rear_at) (get_or-set_hit q.items q.rear x none (omega arith))))

  drop_front-IsValid : {q : CirQueue A} → IsValid q → 0 < q.count → IsValid (drop_front q)
  unfolding drop_front
  drop_front-IsValid {q} v h = ground (arith, length-set q.items q.front none)

  contents-drop_front :
      {q : CirQueue A}
      → IsValid q
      → 0 < q.count
      → contents q ≡ get_or q.items q.front none ∷ contents (drop_front q)
  unfolding drop_front
  contents-drop_front {q} v h =
      let one_less : q.count ≡ suc (q.count - 1) = omega arith in
      tabulate_count one_less
      ∙ ap₂ ◌∷◌ (ap (λ i. get_or q.items i none) (omega arith)) (
          tabulate_congr (q.count - 1) _ _ (λ k lt.
            ap (λ i. get_or q.items i none) (omega arith)
            ∙ sym (get_or-set_miss q.items q.front _ none none (omega arith))))
    where
      tabulate_count :
          {m : ℕ}
          → q.count ≡ m
          → contents q ≡ tabulate m (λ k. get_or q.items ((q.front + k) % que_size) none)
      tabulate_count e =
          ap (λ m. tabulate m (λ k. get_or q.items ((q.front + k) % que_size) none)) e

  -- On a valid queue `push_cir_queue` returns, keeps it valid, and appends its element, or drops it
  -- on 4095 waiting ones.
  pub push_refines :
      {q : CirQueue A} (x : Option A)
      → IsValid q
      → (q' : CirQueue A) × (push_cir_queue q x ≡ some q')
        × IsValid q'
        × (contents q' ≡ push_fifo (contents q) x)
  unfolding push_cir_queue push_fifo
  push_refines {q} x v = elim (Bool-cases (q.count == 4095)) [
    | inl full ↦ (q, ground (arith, is_full_lem v), v, ground (arith, length-contents q))
    | inr space ↦ (
      write_rear q x,
      ground (arith, is_full_lem v),
      write_rear-IsValid x v (ground arith),
      ground (arith, length-contents q, contents-write_rear x v),
    )
  ]

  -- On a valid queue `pop_cir_queue` returns, keeps it valid, and gives and removes the oldest
  -- element, or gives NULL if none waits.
  pub pop_refines :
      {q : CirQueue A}
      → IsValid q
      → (out : Option A) × (q' : CirQueue A) × (pop_cir_queue q ≡ some (out, q'))
        × IsValid q'
        × ((out, contents q') ≡ pop_fifo (contents q))
  unfolding pop_cir_queue pop_fifo
  pop_refines {q} v = elim (Bool-cases (q.count == 0)) [
    | inl empty ↦ (none, q, ground (arith, is_empty_lem v), v, rw (contents_empty q (ground arith)))
    | inr some_left ↦ (
      get_or q.items q.front none,
      drop_front q,
      ground (arith, is_empty_lem v),
      drop_front-IsValid v (ground arith),
      rw (contents-drop_front v (ground arith)),
    )
  ]

  -- `top_cir_queue` gives the element that `pop_cir_queue` would, and changes nothing.
  pub top_refines :
      {q : CirQueue A} → IsValid q → top_cir_queue q ≡ some ((pop_fifo (contents q)).0, q)
  unfolding top_cir_queue pop_fifo
  top_refines {q} v = elim (Bool-cases (q.count == 0)) [
    | inl empty ↦ rw (contents_empty q (ground arith)) (ground (arith, is_empty_lem v))
    | inr some_left ↦ rw (contents-drop_front v (ground arith)) (ground (arith, is_empty_lem v))
  ]

  drop_front-lt :
      {q : CirQueue A} {fuel : ℕ}
      → IsValid q
      → q.count < suc fuel
      → 0 < q.count
      → (drop_front q).count < fuel
  unfolding drop_front
  drop_front-lt v h p = omega arith

  drop_front-held :
      (q : CirQueue A) (fuel : ℕ) {r : Option (CirQueue A)}
      → clear_loop fuel (record (drop_front q) { sem = (drop_front q).sem - 1 }) ≡ r
      → clear_loop fuel (drop_front (record q { sem = q.sem - 1 })) ≡ r
  unfolding drop_front
  drop_front-held q fuel e = e

  -- The loop ends: each round drops one element. It runs with one permit taken.
  clear_loop_lem :
      (fuel : ℕ) {q : CirQueue A}
      → IsValid q
      → q.count < fuel
      → (q' : CirQueue A) × (clear_loop fuel (record q { sem = q.sem - 1 })
          ≡ some (record q' { sem = q'.sem - 1 }))
        × IsValid q'
        × (q'.count ≡ 0)
  unfolding clear_loop
  clear_loop_lem zero v h = absurd (omega arith)
  clear_loop_lem (suc fuel) {q} v h = elim (Bool-cases (q.count == 0)) [
    | inl empty ↦ (q, ground (arith, is_empty_held v), v, ground arith)
    | inr some_left ↦
        let (q', runs, valid, zeroed) =
          clear_loop_lem fuel (drop_front-IsValid v (ground arith))
            (drop_front-lt v h (ground arith)) in
        (q', ground (arith, is_empty_held v, drop_front-held q fuel runs), valid, zeroed)
  ]

  -- On a valid queue `clear_queue` ends, and leaves a valid empty queue.
  pub clear_refines :
      {q : CirQueue A}
      → IsValid q
      → (q' : CirQueue A) × (clear_queue q ≡ some q') × IsValid q' × (contents q' ≡ [])
  unfolding clear_queue sem_wait sem_post
  clear_refines {q} v =
      let (q', runs, valid, zeroed) = clear_loop_lem que_size v v.count_in in
      (q', ground (arith, runs, valid.permits), valid, contents_empty q' zeroed)

  -- One call of a client, with the pointer that it gives (NULL where the function is `void`).
  unfoldable pub step_queue : CirQueue A → Op A → Option (Option A × CirQueue A)
  step_queue q (push x) = push_cir_queue q x >>= λ q'. some (none, q')
  step_queue q pop = pop_cir_queue q
  step_queue q top = top_cir_queue q
  step_queue q clear = clear_queue q >>= λ q'. some (none, q')

  unfoldable pub run_queue : CirQueue A → List (Op A) → Option (List (Option A))
  run_queue q [] = some []
  run_queue q (op ∷ ops) = step_queue q op >>= λ r. run_queue r.1 ops >>= λ outs. some (r.0 ∷ outs)

  step_refines :
      {q : CirQueue A} (op : Op A)
      → IsValid q
      → (out : Option A) × (q' : CirQueue A) × (step_queue q op ≡ some (out, q'))
        × IsValid q'
        × ((out, contents q') ≡ step_fifo (contents q) op)
  unfolding step_queue step_fifo
  step_refines {q} (push x) v =
      let (q', runs, valid, holds) = push_refines x v in (none, q', rw runs, valid, rw holds)
  step_refines {q} pop v = pop_refines v
  step_refines {q} top v = ((pop_fifo (contents q)).0, q, top_refines v, v, refl)
  step_refines {q} clear v =
      let (q', runs, valid, holds) = clear_refines v in (none, q', rw runs, valid, rw holds)

  -- No sequence of calls blocks, or tells a valid queue from the FIFO of its contents.
  pub run_refines :
      (ops : List (Op A)) {q : CirQueue A}
      → IsValid q
      → run_queue q ops ≡ some (run_fifo (contents q) ops)
  unfolding run_queue run_fifo
  run_refines [] v = refl
  run_refines (op ∷ ops) {q} v =
      let (out, q', runs, valid, holds) = step_refines op v in
      rw (runs, ← holds, run_refines ops valid)
