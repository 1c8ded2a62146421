-- ===== src/CirQueue/Fifo.antt =====
-- What proxy/cir_queue.c promises: a FIFO that drops what is pushed on 4095 waiting elements, and
-- whose `pop` and `top` give NULL when nothing waits.
use lrued_redis_storage_iceb.Prelude.{
  Option, none, List, [], ◌∷◌, ◌++◌, ◌==◌, if◌then◌else◌, length,
}

pub data Op (A : Type 0) : Type 0 where
  push : Option A → Op A
  pop top clear : Op A

module _ {A : Type 0} where
  unfoldable pub push_fifo : List (Option A) → Option A → List (Option A)
  push_fifo l x = if length l == 4095 then l else l ++ (x ∷ [])

  unfoldable pub pop_fifo : List (Option A) → Option A × List (Option A)
  pop_fifo [] = (none, [])
  pop_fifo (x ∷ l) = (x, l)

  -- What each call gives, and what waits after it.
  unfoldable pub step_fifo : List (Option A) → Op A → Option A × List (Option A)
  step_fifo l (push x) = (none, push_fifo l x)
  step_fifo l pop = pop_fifo l
  step_fifo l top = ((pop_fifo l).0, l)
  step_fifo l clear = (none, [])

  unfoldable pub run_fifo : List (Option A) → List (Op A) → List (Option A)
  run_fifo l [] = []
  run_fifo l (op ∷ ops) = let (out, l') = step_fifo l op in out ∷ run_fifo l' ops
