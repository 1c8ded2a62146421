-- ===== src/HashTable.antt =====
-- proxy/hash_table.c and hash_table.h: the chained table from a file server to its backup.
-- A key or a value is the bytes of its C string. `ht_hash` reads its local `hashval` before any
-- write: the value that it finds there is the argument `garbage` of each call that hashes.
-- Whether an allocation succeeds is an argument too; `none` as a whole result is a write to NULL.
pub mod Chain
pub mod Strcmp
pub mod Hash
pub mod Lookup
use lrued_redis_storage_iceb.Prelude.{
  ℕ, zero, suc, ◌+◌, ◌-◌, ◌*◌, ◌%◌, ◌^◌, Bool, true, false, Option, none, some, List, [], ◌∷◌, ◌++◌,
  ◌==◌, ltb, if◌then◌else◌, get_or, set, replicate, Order, strcmp,
}

-- `struct entry_s` without its link. The value is NULL after a `strdup` that failed.
pub record Entry : Type 0 where
  pub key : List ℕ
  pub value : Option (List ℕ)

-- `struct hashtable_s`: each bin is its linked list.
pub record HashTable : Type 0 where
  pub size : ℕ
  pub table : List (List Entry)

-- Which of the allocations of a call succeed.
pub record Alloc : Type 0 where
  pub pair : Bool
  pub pair_key : Bool
  pub pair_value : Bool
  pub new_value : Bool

abbrev pub ulong_max : ℕ
ulong_max = 2 ^ 64 - 1

-- `none` is NULL.
unfoldable pub ht_create : Bool → Bool → ℕ → Option HashTable
ht_create table_alloc bins_alloc size =
    if ltb size 1
    then none
    else if table_alloc
    then if bins_alloc then some (record { size = size; table = replicate size [] }) else none
    else none

-- `hashval = hashval << 8; hashval += key[i];` with a `char` that is signed
unfoldable pub mix : ℕ → ℕ → ℕ
mix hashval c = (hashval * 256 + c + (if ltb c 128 then 0 else 2 ^ 64 - 256)) % 2 ^ 64

unfoldable pub hash_loop : ℕ → List ℕ → ℕ
hash_loop hashval [] = hashval
hash_loop hashval (c ∷ key) =
    if ltb hashval ulong_max then hash_loop (mix hashval c) key else hashval

unfoldable pub ht_hash : ℕ → HashTable → List ℕ → ℕ
ht_hash garbage hashtable key = hash_loop garbage key % hashtable.size

unfoldable pub ht_newpair : Alloc → List ℕ → List ℕ → Option Entry
ht_newpair alloc key value =
    if alloc.pair
    then if alloc.pair_key
      then if alloc.pair_value then some (record { key = key; value = some value }) else none
      else none
    else none

-- The loop of `ht_set`: the entries passed by `last`, and those from `next` on.
unfoldable pub walk : List ℕ → List Entry → List Entry × List Entry
walk key [] = ([], [])
walk key (e ∷ es) =
    let (passed, next) = walk key es in
    elim (strcmp key e.key) [ Order.more ↦ (e ∷ passed, next) | _ ↦ ([], e ∷ es) ]

-- The loop of `ht_get`: the entries from `pair` on.
unfoldable pub seek : List ℕ → List Entry → List Entry
seek key [] = []
seek key (e ∷ es) = elim (strcmp key e.key) [ Order.more ↦ seek key es | _ ↦ e ∷ es ]

-- The links of a new pair: at the start, at the end, in the middle. Only at the end is the pair
-- not written to.
unfoldable pub link : List Entry → List Entry → Option Entry → Option (List Entry)
link [] next none = none
link [] next (some newpair) = some (newpair ∷ next)
link (last ∷ passed) [] none = some (last ∷ passed)
link (last ∷ passed) [] (some newpair) = some ((last ∷ passed) ++ (newpair ∷ []))
link (last ∷ passed) (e ∷ next) none = none
link (last ∷ passed) (e ∷ next) (some newpair) = some ((last ∷ passed) ++ (newpair ∷ e ∷ next))

-- `ht_set` on the bin of its key.
unfoldable pub set_bin : Alloc → List ℕ → List ℕ → List Entry → List Entry → Option (List Entry)
unfolding link ht_newpair
set_bin alloc key value passed [] = link passed [] (ht_newpair alloc key value)
set_bin alloc key value passed (e ∷ next) = elim (strcmp key e.key) [
  | Order.same ↦
      some (passed ++ (record e { value = if alloc.new_value then some value else none } ∷ next))
  | _ ↦ link passed (e ∷ next) (ht_newpair alloc key value)
]

unfoldable pub ht_set : Alloc → ℕ → HashTable → List ℕ → List ℕ → Option HashTable
ht_set alloc garbage hashtable key value =
    let bin = ht_hash garbage hashtable key in
    let (passed, next) = walk key (get_or hashtable.table bin []) in
    elim (set_bin alloc key value passed next) [
      | none ↦ none
      | some entries ↦ some (record hashtable { table = set hashtable.table bin entries })
    ]

-- What `ht_get` answers at the entry where its loop stopped.
unfoldable pub found_value : List ℕ → List Entry → Option (List ℕ)
found_value key [] = none
found_value key (pair ∷ _) = elim (strcmp key pair.key) [ Order.same ↦ pair.value | _ ↦ none ]

unfoldable pub ht_get : ℕ → HashTable → List ℕ → Option (List ℕ)
ht_get garbage hashtable key =
    found_value key (seek key (get_or hashtable.table (ht_hash garbage hashtable key) []))
