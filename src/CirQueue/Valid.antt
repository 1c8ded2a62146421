-- ===== src/CirQueue/Valid.antt =====
-- The invariant of the queue of proxy/cir_queue.c, and that every operation runs and keeps it.
use lrued_redis_storage_iceb.Prelude.{
  ◌+◌, ◌%◌, ◌≤◌, ◌<◌, ◌≡◌, true, Option, none, some, arith, length, length-replicate,
}
use lrued_redis_storage_iceb.CirQueue.{CirQueue, que_size, cleared_items, init_cir_queue}

-- The indices are in the array, and `rear` is `count` places past `front`. At most 4095 places are
-- used, so `front == rear` means that the queue is empty. Two permits serve one thread.
pub record IsValid {A : Type 0} (q : CirQueue A) : Type 0 where
  pub room : length q.items ≡ que_size
  pub front_in : q.front < que_size
  pub count_in : q.count < que_size
  pub rear_at : q.rear ≡ (q.front + q.count) % que_size
  pub permits : 2 ≤ q.sem

module _ {A : Type 0} where
  pub init-IsValid : {q : CirQueue A} → init_cir_queue true ≡ some q → IsValid q × (q.count ≡ 0)
  unfolding init_cir_queue cleared_items
  init-IsValid {q} e = ground (arith, length-replicate {A = Option A} que_size none)
