-- ===== src/HashTable/Chain.antt =====
-- One bin: what `ht_set` does to it, and what `ht_get` finds in it.
use lrued_redis_storage_iceb.Prelude.{
  ℕ, ◌≡◌, refl, ◌≢◌, true, Option, none, some, List, [], ◌∷◌, arith, Order, strcmp,
}
use lrued_redis_storage_iceb.HashTable.{Entry, Alloc, walk, seek, set_bin, found_value}
use lrued_redis_storage_iceb.HashTable.Strcmp.{
  flip, strcmp_self, eq_of_same, strcmp-flip, less_trans,
}

-- The sorted bin with `value` under `key`, written as one recursion.
unfoldable pub place : List ℕ → List ℕ → List Entry → List Entry
place key value [] = record { key = key; value = some value } ∷ []
place key value (e ∷ es) = elim (strcmp key e.key) [
  | Order.more ↦ e ∷ place key value es
  | Order.same ↦ record e { value = some value } ∷ es
  | Order.less ↦ record { key = key; value = some value } ∷ e ∷ es
]

data Cases (o : Order) : Type 0 where
  below : o ≡ Order.less → Cases o
  equal : o ≡ Order.same → Cases o
  above : o ≡ Order.more → Cases o

Order-Cases : (o : Order) → Cases o
Order-Cases Order.less = below refl
Order-Cases Order.same = equal refl
Order-Cases Order.more = above refl

abbrev pub all_succeed : Alloc
all_succeed = record { pair = true; pair_key = true; pair_value = true; new_value = true }

-- An entry that the loop passed stays in front.
set_bin-cons :
    (key value : List ℕ) (e : Entry) (passed next : List Entry) (es : List Entry)
    → set_bin all_succeed key value passed next ≡ some es
    → set_bin all_succeed key value (e ∷ passed) next ≡ some (e ∷ es)
unfolding set_bin
set_bin-cons key value e [] [] es h = ground arith
set_bin-cons key value e [] (f ∷ next) es h = ground arith
set_bin-cons key value e (p ∷ passed) [] es h = ground arith
set_bin-cons key value e (p ∷ passed) (f ∷ next) es h = ground arith

pub set_bin-walk :
    (key value : List ℕ) (es : List Entry)
    → set_bin all_succeed key value (walk key es).0 (walk key es).1 ≡ some (place key value es)
unfolding walk place set_bin
set_bin-walk key value [] = refl
set_bin-walk key value (e ∷ es) = elim (Order-Cases (strcmp key e.key)) [
  | below h ↦ ground arith
  | equal h ↦ ground arith
  | above h ↦
      rw (h, walk, place)
        (set_bin-cons key value e (walk key es).0 (walk key es).1 _ (set_bin-walk key value es))
]

-- What `ht_get` answers on a bin.
abbrev pub get_bin : List ℕ → List Entry → Option (List ℕ)
get_bin key es = found_value key (seek key es)

get_bin-cons :
    (key : List ℕ) (e : Entry) (es : List Entry)
    → get_bin key (e ∷ es) ≡ elim (strcmp key e.key) [
      | Order.more ↦ get_bin key es
      | Order.same ↦ e.value
      | Order.less ↦ none
    ]
unfolding seek found_value
get_bin-cons key e es = ground arith

-- The value placed is found under its key.
pub get_bin-place_self :
    (key value : List ℕ) (es : List Entry) → get_bin key (place key value es) ≡ some value
unfolding place seek found_value
get_bin-place_self key value [] = ground (arith, strcmp_self key)
get_bin-place_self key value (e ∷ es) =
    ground (arith, strcmp_self key, get_bin-place_self key value es)

-- Every other key is found as before.
pub get_bin-place_ne :
    (key other value : List ℕ) (es : List Entry)
    → key ≢ other
    → get_bin other (place key value es) ≡ get_bin other es
unfolding place seek found_value flip
get_bin-place_ne key other value [] ne = ground (arith, eq_of_same other key)
get_bin-place_ne key other value (e ∷ es) ne = elim (Order-Cases (strcmp key e.key)) [
  | below h ↦
      rw (h, place)
        (ground (arith, h, eq_of_same other key, strcmp-flip key other, less_trans other key e.key))
  | equal h ↦ rw (h, place) (ground (arith, eq_of_same other e.key, eq_of_same key e.key))
  | above h ↦ rw (h, place) (ground (arith, get_bin-place_ne key other value es ne))
]

-- The keys of a bin rise strictly.
abbrev pub Above : List ℕ → List Entry → Type 0
Above k [] = Unit {0}
Above k (e ∷ es) = (strcmp k e.key ≡ Order.less) × Above k es

abbrev pub IsSorted : List Entry → Type 0
IsSorted [] = Unit {0}
IsSorted (e ∷ es) = Above e.key es × IsSorted es

Above-trans : (j k : List ℕ) (es : List Entry) → strcmp j k ≡ Order.less → Above k es → Above j es
Above-trans j k [] h a = tt
Above-trans j k (e ∷ es) h a = (less_trans j k e.key h a.0, Above-trans j k es h a.1)

Above-place :
    (j key value : List ℕ) (es : List Entry)
    → strcmp j key ≡ Order.less
    → Above j es
    → Above j (place key value es)
unfolding place
Above-place j key value [] h a = (h, tt)
Above-place j key value (e ∷ es) h a = ground (arith, Above-place j key value es h a.1)

-- A bin stays sorted.
pub place-IsSorted :
    (key value : List ℕ) (es : List Entry) → IsSorted es → IsSorted (place key value es)
unfolding place flip
place-IsSorted key value [] s = (tt, tt)
place-IsSorted key value (e ∷ es) s = ground (
  arith,
  place-IsSorted key value es s.1,
  Above-place e.key key value es,
  Above-trans key e.key es,
  strcmp-flip key e.key,
)
