-- ===== src/CirQueue.antt =====
-- proxy/cir_queue.c and cir_queue.h: the circular queue of the keys that were asked for.
-- A `char *` element is an `Option A`, with `none` for NULL. The semaphore `queue_sem` is its number
-- of permits; `none` as a result says that `sem_wait` blocks, since nothing would ever post.
-- The functions that change `*q` return the new queue beside their result. `int count` is a number:
-- `count--` runs only where the queue is not empty.
pub mod Valid
pub mod Fifo
pub mod Refine
pub mod Print
use lrued_redis_storage_iceb.Prelude.{
  ℕ, zero, suc, ◌+◌, ◌-◌, ◌%◌, Bool, true, false, Option, none, some, List, ◌==◌, if◌then◌else◌,
  get_or, set, replicate,
}

abbrev pub que_size : ℕ
que_size = 4096

pub record CirQueue (A : Type 0) : Type 0 where
  pub items : List (Option A)
  pub front : ℕ
  pub rear : ℕ
  pub count : ℕ
  pub sem : ℕ

-- Whether the call went on, and with what.
infixl 5 ◌>>=◌
abbrev pub ◌>>=◌ : {A B : Type 0} → Option A → (A → Option B) → Option B
none >>= f = none
some a >>= f = f a

module _ {A : Type 0} where
  -- `memset(q->data, 0, ...)`
  unfoldable pub cleared_items : List (Option A)
  cleared_items = replicate que_size none

  -- `none` is `exit(EXIT_FAILURE)`; the flag says whether `sem_init` succeeded.
  unfoldable pub init_cir_queue : Bool → Option (CirQueue A)
  init_cir_queue true =
      some (record { items = cleared_items; front = 0; rear = 0; count = 0; sem = que_size })
  init_cir_queue false = none

  unfoldable pub sem_wait : CirQueue A → Option (CirQueue A)
  sem_wait q = if q.sem == 0 then none else some (record q { sem = q.sem - 1 })

  unfoldable pub sem_post : CirQueue A → CirQueue A
  sem_post q = record q { sem = q.sem + 1 }

  unfoldable pub is_empty_cir_queue : CirQueue A → Option (Bool × CirQueue A)
  unfolding sem_wait sem_post
  is_empty_cir_queue q = do q' ← sem_wait q; some (q'.front == q'.rear, sem_post q')

  unfoldable pub is_full_cir_queue : CirQueue A → Option (Bool × CirQueue A)
  unfolding sem_wait sem_post
  is_full_cir_queue q = do q' ← sem_wait q; some (q'.count == que_size - 1, sem_post q')

  -- the part of `push_cir_queue` between `sem_wait` and `sem_post`
  unfoldable pub write_rear : CirQueue A → Option A → CirQueue A
  write_rear q x = record q {
    count = q.count + 1;
    items = set q.items q.rear x;
    rear = (q.rear + 1) % que_size;
  }

  unfoldable pub push_cir_queue : CirQueue A → Option A → Option (CirQueue A)
  unfolding is_full_cir_queue write_rear
  push_cir_queue q x = do
    (full, q') ← is_full_cir_queue q
    if full then some q' else (sem_wait q' >>= λ q''. some (sem_post (write_rear q'' x)))

  -- `q->data[q->front] = 0; q->count--; q->front = (q->front+1) % QUE_SIZE;`
  unfoldable pub drop_front : CirQueue A → CirQueue A
  drop_front q = record q {
    items = set q.items q.front none;
    count = q.count - 1;
    front = (q.front + 1) % que_size;
  }

  unfoldable pub pop_cir_queue : CirQueue A → Option (Option A × CirQueue A)
  unfolding is_empty_cir_queue drop_front
  pop_cir_queue q = do
    (empty, q') ← is_empty_cir_queue q
    if empty
        then some (none, q')
        else (sem_wait q' >>= λ q''.
            some (get_or q''.items q''.front none, sem_post (drop_front q'')))

  -- `while( !is_empty_cir_queue(q))` of `clear_queue`, on fuel
  unfoldable pub clear_loop : ℕ → CirQueue A → Option (CirQueue A)
  clear_loop zero q = none
  clear_loop (suc fuel) q = elim (is_empty_cir_queue q) [
    | none ↦ none
    | some (empty, q') ↦ elim empty [ true ↦ some q' | false ↦ clear_loop fuel (drop_front q') ]
  ]

  -- a valid queue is empty after fewer rounds than it has places
  unfoldable pub clear_queue : CirQueue A → Option (CirQueue A)
  clear_queue q = do q' ← sem_wait q; q'' ← clear_loop que_size q'; some (sem_post q'')

  unfoldable pub top_cir_queue : CirQueue A → Option (Option A × CirQueue A)
  unfolding is_empty_cir_queue
  top_cir_queue q = do
    (empty, q') ← is_empty_cir_queue q
    if empty
        then some (none, q')
        else (sem_wait q' >>= λ q''. some (get_or q''.items q''.front none, sem_post q''))

  -- After `sem_destroy` there is no permit: a later call blocks here, where C leaves it undefined.
  unfoldable pub destroy_cir_queue : CirQueue A → CirQueue A
  destroy_cir_queue q = record q { sem = 0 }
