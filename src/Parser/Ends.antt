-- ===== src/Parser/Ends.antt =====
-- The steps of proxy/parser.c end, and what they leave in the queue.
use lrued_redis_storage_iceb.Prelude.{
  ℕ, zero, suc, ◌+◌, ◌≤◌, ◌<◌, ◌≡◌, ◌≢◌, refl, Option, none, some, ◌∙◌, arith, length,
}
use lrued_redis_storage_iceb.Prelude.Int.{ℤ, pos_part}
use lrued_redis_storage_iceb.CirQueue.{pop_cir_queue}
use lrued_redis_storage_iceb.CirQueue.Fifo.{pop_fifo}
use lrued_redis_storage_iceb.CirQueue.Valid.{IsValid}
use lrued_redis_storage_iceb.CirQueue.Refine.{contents, length-contents, pop_refines}
use lrued_redis_storage_iceb.HashTable.{ht_get}
use lrued_redis_storage_iceb.State.{
  Text, WData, Os, Globals, M, Run, ok, exits, undefined, hangs, ◌>>=◌, pure, fails, on_queue,
}
use lrued_redis_storage_iceb.Store.{
  Payload, object, null_object, characters, send_to_host, lookup_host, send_all, save_json,
  save_value,
}
use lrued_redis_storage_iceb.Store.Replicated.{to_backup}
use lrued_redis_storage_iceb.Parser.{
  pop_handle, parse_items, parse_item, after_length, take_item, ItemKey, drop_key, number_from,
}

-- The call ends, and if it returns, so that `P` holds.
unfoldable pub EndsIn : {W A : Type 0} → (A → Globals W → Type 0) → Run (A × Globals W) → Type 0
EndsIn P (ok (a, g)) = P a g
EndsIn P exits = Unit {0}
EndsIn P undefined = Unit {0}
EndsIn P hangs = ⊥

module _ {W A B : Type 0} where
  pub bind-EndsIn :
      (P : A → Globals W → Type 0) (Q : B → Globals W → Type 0) (r : Run (A × Globals W))
      (g : Globals W) (f : A → M W B)
      → EndsIn P r
      → ((a : A) (g' : Globals W) → P a g' → EndsIn Q (f a g'))
      → EndsIn Q ((fails r >>= f) g)
  unfolding EndsIn
  bind-EndsIn P Q (ok (a, g')) g f e k = k a g' e
  bind-EndsIn P Q exits g f e k = tt
  bind-EndsIn P Q undefined g f e k = tt
  bind-EndsIn P Q hangs g f e k = e

weaken-EndsIn :
    {W A : Type 0} (P Q : A → Globals W → Type 0) (r : Run (A × Globals W))
    → EndsIn P r
    → ((a : A) (g : Globals W) → P a g → Q a g)
    → EndsIn Q r
unfolding EndsIn
weaken-EndsIn P Q (ok (a, g)) e k = k a g e
weaken-EndsIn P Q exits e k = tt
weaken-EndsIn P Q undefined e k = tt
weaken-EndsIn P Q hangs e k = e

module _ {W J : Type 0} (os : Os W J) where
  -- The queue is the one before the call.
  abbrev SameQueue : {A : Type 0} → Globals W → A → Globals W → Type 0
  SameQueue g a g' = g'.queue ≡ g.queue

  send_to_host-EndsIn :
      (host key value : Text) (g : Globals W)
      → EndsIn (SameQueue g) (send_to_host os host key value g)
  unfolding send_to_host EndsIn
  send_to_host-EndsIn host key value g = ground arith

  lookup_host-EndsIn : (key : Text) (g : Globals W) → EndsIn (SameQueue g) (lookup_host os key g)
  unfolding EndsIn
  lookup_host-EndsIn key g = ground arith

  send_all-EndsIn :
      (host : Option Text) (key value : Text) (g : Globals W)
      → EndsIn (SameQueue g) (send_all os host key value g)
  unfolding send_all EndsIn
  send_all-EndsIn none key value g = refl
  send_all-EndsIn (some host) key value g =
      bind-EndsIn (SameQueue g) (SameQueue g) (send_to_host os host key value g) g _
        (send_to_host-EndsIn host key value g)
        (λ a g' same.
          option_host (ht_get (os.uninitialised g'.world).0 g'.hosts.hashtable host) g' same)
    where
      option_host :
          (b : Option Text) (g' : Globals W)
          → g'.queue ≡ g.queue
          → EndsIn
              (SameQueue g)
              (to_backup os b key value (record g' { world = (os.uninitialised g'.world).1 }))
      option_host none g' same = same
      option_host (some h) g' same =
          weaken-EndsIn (SameQueue g') (SameQueue g) _
            (send_to_host-EndsIn h key value (record g' { world = (os.uninitialised g'.world).1 }))
            (λ a g'' e. e ∙ same)

  save_value-EndsIn :
      (payload : Payload J) (key : Text) (g : Globals W)
      → EndsIn (SameQueue g) (save_value os payload key g)
  unfolding save_value save_json EndsIn
  save_value-EndsIn (object j) key g = by_dump (os.json_dumps j)
    where
      by_dump : (value : Option Text) → EndsIn (SameQueue g) (save_json os value key g)
      by_dump none = refl
      by_dump (some value) =
          bind-EndsIn (SameQueue g) (SameQueue g) (lookup_host os key g) g _
            (lookup_host-EndsIn key g)
            (λ host g' same.
              bind-EndsIn (SameQueue g') (SameQueue g) (send_all os host key value g') g' _
                (send_all-EndsIn host key value g') (λ a g'' same'. same' ∙ same))
  save_value-EndsIn null_object key g = tt
  save_value-EndsIn (characters s) key g = tt

  -- The keys that wait are fewer, or as many.
  abbrev pub Fewer : {A : Type 0} → Globals W → A → Globals W → Type 0
  Fewer g a g' = IsValid g'.queue × (g'.queue.count < g.queue.count)

  abbrev pub NoMore : {A : Type 0} → Globals W → A → Globals W → Type 0
  NoMore g a g' = IsValid g'.queue × (g'.queue.count ≤ g.queue.count)

  abbrev Popped : Globals W → Option Text → Globals W → Type 0
  Popped g out g' = NoMore g out g' × ((k : Text) → out ≡ some k → g'.queue.count < g.queue.count)

  pop_lem : (g : Globals W) → IsValid g.queue → EndsIn (Popped g) (on_queue pop_cir_queue g)
  unfolding EndsIn pop_fifo
  pop_lem g v =
      let (out, q', runs, valid, holds) = pop_refines v in
      let sizes : length (contents q') ≤ length (contents g.queue) = ground (arith, holds) in
      rw (runs, EndsIn)
        (
          (valid, omega (arith, sizes, length-contents q', length-contents g.queue)),
          λ k some_out.
              let less : length (contents q') < length (contents g.queue) =
                ground (arith, holds, some_out) in
              omega (arith, less, length-contents q', length-contents g.queue),
        )

  -- `popHandle` behind its call of `pop_cir_queue`
  abbrev with_key : Payload J → Option Text → M W (Unit {0})
  with_key payload e = elim e [
    | none ↦ fails exits
    | some key ↦ (save_value os payload key >>= λ _. pure tt)
  ]

  pub pop_handle-EndsIn :
      (payload : Payload J) (g : Globals W)
      → IsValid g.queue
      → EndsIn (Fewer g) (pop_handle os payload g)
  unfolding pop_handle EndsIn
  pop_handle-EndsIn payload g v =
      bind-EndsIn (Popped g) (Fewer g) _ g _ (pop_lem g v)
        (λ out g' popped. by_key out g' popped.0 (popped.1))
    where
      by_key :
          (out : Option Text) (g' : Globals W)
          → NoMore g out g'
          → ((k : Text) → out ≡ some k → g'.queue.count < g.queue.count)
          → EndsIn (Fewer g) (with_key payload out g')
      by_key none g' popped fewer = tt
      by_key (some k) g' popped fewer =
          bind-EndsIn (SameQueue g') (Fewer g) (save_value os payload k g') g' _
            (save_value-EndsIn payload k g') (λ a g'' same. rw (same) (popped.0, fewer k refl))

  pub drop_key-EndsIn : (g : Globals W) → IsValid g.queue → EndsIn (NoMore g) (drop_key os g)
  unfolding drop_key EndsIn
  drop_key-EndsIn g v =
      bind-EndsIn (Popped g) (NoMore g) (on_queue pop_cir_queue g) g (λ out. pure tt) (pop_lem g v)
        (λ out g' popped. popped.0)

  take_item-ends :
      (wdata : WData) (array_len start n : ℕ) (key : ItemKey) (json : J)
      → take_item os wdata array_len start n key json ≢ hangs
  unfolding take_item
  take_item-ends wdata array_len start n key json = ground arith

  after_length-ends :
      (wdata : WData) (array_len : ℕ) (key : ItemKey) (json : J) (index : ℕ) (item_len : ℤ)
      → after_length os wdata array_len key json index item_len ≢ hangs
  unfolding after_length
  after_length-ends wdata array_len key json index item_len =
      ground (arith, take_item-ends wdata array_len (index + 2) (pos_part item_len) key json)

  parse_item-ends :
      (wdata : WData) (array_len : ℕ) (key : ItemKey) (json : J) (index : ℕ)
      → parse_item os wdata array_len key json index ≢ hangs
  unfolding parse_item
  parse_item-ends wdata array_len key json index = by_number (number_from wdata (index + 1)) refl
    where
      by_number :
          (n : Option (ℤ × ℕ))
          → number_from wdata (index + 1) ≡ n
          → parse_item os wdata array_len key json index ≢ hangs
      by_number none e = ground (arith, e)
      by_number (some (len, behind)) e =
          ground (arith, e, after_length-ends wdata array_len key json behind len)

  pub parse_items-ends :
      (array_len : ℕ) (wdata : WData) (key : ItemKey) (json : J) (index : Option ℕ)
      → parse_items os wdata array_len key json index ≢ hangs
  unfolding parse_items
  parse_items-ends zero wdata key json index = ground arith
  parse_items-ends (suc n) wdata key json none = ground arith
  parse_items-ends (suc n) wdata key json (some index) =
      by_item (parse_item os wdata (suc n) key json index) refl
        (λ k j o. parse_items-ends n wdata k j o)
    where
      by_item :
          (r : Run (Option (Option ℕ × ItemKey × J)))
          → parse_item os wdata (suc n) key json index ≡ r
          → ((k : ItemKey) (j : J) (o : Option ℕ) → parse_items os wdata n k j o ≢ hangs)
          → parse_items os wdata (suc n) key json (some index) ≢ hangs
      by_item (ok none) e rest = ground (arith, e)
      by_item (ok (some (next, key', json'))) e rest = ground (arith, e, rest key' json' next)
      by_item exits e rest = ground (arith, e)
      by_item undefined e rest = ground (arith, e)
      by_item hangs e rest = absurd (parse_item-ends wdata (suc n) key json index e)
