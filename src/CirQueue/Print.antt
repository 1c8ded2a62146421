-- ===== src/CirQueue/Print.antt =====
-- `print_queue` of proxy/cir_queue.c: the text that it writes.
use lrued_redis_storage_iceb.Prelude.{ℕ, Option, some, List, [], ◌∷◌, ◌++◌, if◌then◌else◌, codes}
use lrued_redis_storage_iceb.CirQueue.{CirQueue, ◌>>=◌, sem_wait, sem_post, is_empty_cir_queue}

-- `printf(" %s ", q->data[index])` over the array; `printed` is what `printf` makes of a pointer.
unfoldable pub print_items : {A : Type 0} → (Option A → List ℕ) → List (Option A) → List ℕ
print_items printed [] = []
print_items printed (x ∷ items) = (32 ∷ printed x) ++ (32 ∷ print_items printed items)

-- The whole array is printed, also the places that hold no element.
unfoldable pub print_queue :
    {A : Type 0} → (Option A → List ℕ) → CirQueue A → Option (List ℕ × CirQueue A)
unfolding sem_wait sem_post is_empty_cir_queue print_items
print_queue printed q = do
  (empty, q') ← is_empty_cir_queue q
  if empty
      then some (codes "queue is empty." ++ (10 ∷ []), q')
      else (sem_wait q' >>= λ q''.
          some (codes "QUEUE: " ++ (print_items printed q''.items ++ (10 ∷ [])), sem_post q''))
