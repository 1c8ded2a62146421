-- ===== src/Tests/Queue.antt =====
-- Runs of proxy/cir_queue.c.
use lrued_redis_storage_iceb.Prelude.{ℕ, ◌≡◌, none, some, List, [], ◌∷◌}
use lrued_redis_storage_iceb.CirQueue.{CirQueue, push_cir_queue, clear_queue}
use lrued_redis_storage_iceb.CirQueue.Valid.{IsValid}
use lrued_redis_storage_iceb.CirQueue.Fifo.{
  push, pop, top, clear, Op, push_fifo, pop_fifo, step_fifo, run_fifo,
}
use lrued_redis_storage_iceb.CirQueue.Refine.{
  contents, push_refines, clear_refines, run_queue, run_refines,
}
use lrued_redis_storage_iceb.Tests.World.{fresh_queue, fresh_queue-IsValid}

abbrev calls : List (Op ℕ)
calls = push (some 7) ∷ push (some 8) ∷ pop ∷ top ∷ clear ∷ pop ∷ []

run_refines_example :
    run_queue fresh_queue calls ≡ some (none ∷ none ∷ some 7 ∷ some 8 ∷ none ∷ none ∷ [])
unfolding run_fifo step_fifo push_fifo pop_fifo
run_refines_example = run_refines calls fresh_queue-IsValid

one_pushed :
    (q : CirQueue ℕ) × (push_cir_queue fresh_queue (some 7) ≡ some q)
    × IsValid q
    × (contents q ≡ push_fifo [] (some 7))
one_pushed = push_refines (some 7) fresh_queue-IsValid

clear_refines_example :
    (q : CirQueue ℕ) × (clear_queue one_pushed.0 ≡ some q) × IsValid q × (contents q ≡ [])
clear_refines_example = clear_refines one_pushed.2
