-- ===== src/HashTable/Lookup.antt =====
-- `ht_set` and `ht_get` of proxy/hash_table.c together, on the table of 65536 bins that
-- proxy/main.c makes, with a fresh uninitialised value in every call.
use lrued_redis_storage_iceb.Prelude.{
  ℕ, zero, suc, ◌*◌, ◌+◌, ◌<◌, ◌≡◌, refl, ◌≢◌, some, List, [], ◌∷◌, ◌++◌, arith, length, get_or,
  set, length-set, get_or-set_hit, get_or-set_miss, ◌∙◌, sym, ap, true, replicate, length-replicate,
}
use native.Mathlib.Decide.{ℕ_discrete}
use lrued_redis_storage_iceb.HashTable.{
  Entry, HashTable, ulong_max, ht_create, ht_hash, ht_set, ht_get,
}
use lrued_redis_storage_iceb.HashTable.Chain.{
  all_succeed, place, set_bin-walk, get_bin, get_bin-place_self, get_bin-place_ne, IsSorted,
  place-IsSorted,
}
use lrued_redis_storage_iceb.HashTable.Hash.{IsAscii, ht_hash_last_two}

-- The table of `initHost`, with its bins in order.
pub record IsTable (t : HashTable) : Type 0 where
  pub bins : t.size ≡ 65536
  pub allocated : length t.table ≡ 65536
  pub sorted : (i : ℕ) → IsSorted (get_or t.table i [])

-- An ASCII key of two characters or more, as an IP address is.
pub record IsName (key : List ℕ) : Type 0 where
  pub front : List ℕ
  pub before_last : ℕ
  pub last : ℕ
  pub spelled : key ≡ front ++ (before_last ∷ last ∷ [])
  pub ascii : IsAscii key

-- The bin of a name, which does not depend on the call.
abbrev pub home : {key : List ℕ} → IsName key → ℕ
home n = n.before_last * 256 + n.last

pub ht_hash-home :
    {key : List ℕ} (n : IsName key) (garbage : ℕ) {t : HashTable}
    → IsTable t
    → garbage < ulong_max
    → ht_hash garbage t key ≡ home n
ht_hash-home {key} n garbage {t} v h =
    ap (ht_hash garbage t) n.spelled
    ∙ ht_hash_last_two garbage t n.front n.before_last n.last v.bins h (rw n.spelled at n.ascii)

IsAscii-last : (xs : List ℕ) (a b : ℕ) → IsAscii (xs ++ (a ∷ b ∷ [])) → a * 256 + b < 65536
IsAscii-last [] a b h = omega arith
IsAscii-last (x ∷ xs) a b h = IsAscii-last xs a b h.1

home-lt : {key : List ℕ} (n : IsName key) → home n < 65536
home-lt n = IsAscii-last n.front n.before_last n.last (rw n.spelled at n.ascii)

-- What a call of `ht_set` makes of the table.
abbrev pub stored : {key : List ℕ} → HashTable → IsName key → List ℕ → HashTable
stored {key} t n value = record t {
  table = set t.table (home n) (place key value (get_or t.table (home n) []));
}

-- With memory, `ht_set` of a name in a valid table of 65536 bins, from any uninitialised value but
-- ULONG_MAX, writes the sorted bin of its key, and nothing else.
pub ht_set_stores :
    {key : List ℕ} (n : IsName key) (garbage : ℕ) (t : HashTable) (value : List ℕ)
    → IsTable t
    → garbage < ulong_max
    → ht_set all_succeed garbage t key value ≡ some (stored t n value)
unfolding ht_set
ht_set_stores {key} n garbage t value v h =
    ground (arith, ht_hash-home n garbage v h, set_bin-walk key value (get_or t.table (home n) []))

get_or-set-IsSorted :
    (bs : List (List Entry)) (i j : ℕ) (es : List Entry)
    → IsSorted es
    → IsSorted (get_or bs j [])
    → IsSorted (get_or (set bs i es) j [])
get_or-set-IsSorted [] i j es s t = t
get_or-set-IsSorted (b ∷ bs) zero zero es s t = s
get_or-set-IsSorted (b ∷ bs) zero (suc j) es s t = t
get_or-set-IsSorted (b ∷ bs) (suc i) zero es s t = t
get_or-set-IsSorted (b ∷ bs) (suc i) (suc j) es s t = get_or-set-IsSorted bs i j es s t

pub stored-IsTable :
    {key : List ℕ} (n : IsName key) (t : HashTable) (value : List ℕ)
    → IsTable t
    → IsTable (stored t n value)
stored-IsTable {key} n t value v = record {
  bins = v.bins;
  allocated = length-set t.table _ _ ∙ v.allocated;
  sorted = λ i.
      get_or-set-IsSorted t.table (home n) i _ (place-IsSorted key value _ (v.sorted (home n)))
        (v.sorted i);
}

pub ht_get-home :
    {key : List ℕ} (n : IsName key) (garbage : ℕ) {t : HashTable}
    → IsTable t
    → garbage < ulong_max
    → ht_get garbage t key ≡ get_bin key (get_or t.table (home n) [])
unfolding ht_get
ht_get-home n garbage v h = rw (ht_hash-home n garbage v h)

pub ht_get-stored_self :
    {key : List ℕ} (n : IsName key) (garbage : ℕ) (t : HashTable) (value : List ℕ)
    → IsTable t
    → garbage < ulong_max
    → ht_get garbage (stored t n value) key ≡ some value
ht_get-stored_self {key} n garbage t value v h =
    ht_get-home n garbage (stored-IsTable n t value v) h
    ∙ ap (get_bin key)
        (get_or-set_hit t.table (home n) _ [] (omega (arith, home-lt n, v.allocated)))
    ∙ get_bin-place_self key value _

pub ht_get-stored_ne :
    {key other : List ℕ} (n : IsName key) (m : IsName other) (garbage garbage' : ℕ) (t : HashTable)
    (value : List ℕ)
    → IsTable t
    → garbage < ulong_max
    → garbage' < ulong_max
    → key ≢ other
    → ht_get garbage (stored t n value) other ≡ ht_get garbage' t other
ht_get-stored_ne {key} {other} n m garbage garbage' t value v h h' ne =
    ht_get-home m garbage (stored-IsTable n t value v) h
    ∙ bin (ℕ_discrete (home n) (home m))
    ∙ sym (ht_get-home m garbage' v h')
  where
    bin :
        Dec (home n ≡ home m)
        → get_bin other (get_or (stored t n value).table (home m) [])
          ≡ get_bin other (get_or t.table (home m) [])
    bin (yes e) = rw (← e) (
        ap (get_bin other)
          (get_or-set_hit t.table (home n) _ [] (omega (arith, home-lt n, v.allocated)))
        ∙ get_bin-place_ne key other value _ ne)
    bin (no d) = ap (get_bin other) (get_or-set_miss t.table (home n) (home m) _ [] d)

-- With memory, `ht_set` of a name returns a valid table of 65536 bins from one, and `ht_get` finds
-- the value in it, from whatever uninitialised values but ULONG_MAX the two calls start.
pub ht_get-ht_set_self :
    {key : List ℕ} (n : IsName key) (garbage garbage' : ℕ) (t : HashTable) (value : List ℕ)
    → IsTable t
    → garbage < ulong_max
    → garbage' < ulong_max
    → (t' : HashTable) × (ht_set all_succeed garbage t key value ≡ some t')
      × IsTable t'
      × (ht_get garbage' t' key ≡ some value)
ht_get-ht_set_self n garbage garbage' t value v h h' = (
  stored t n value,
  ht_set_stores n garbage t value v h,
  stored-IsTable n t value v,
  ht_get-stored_self n garbage' t value v h',
)

-- With memory, `ht_set` of a name in a valid table of 65536 bins leaves what `ht_get` finds under
-- every other name, from whatever uninitialised values but ULONG_MAX the three calls start.
pub ht_get-ht_set_ne :
    {key other : List ℕ} (n : IsName key) (m : IsName other) (garbage garbage' garbage'' : ℕ)
    (t : HashTable) (value : List ℕ)
    → IsTable t
    → garbage < ulong_max
    → garbage' < ulong_max
    → garbage'' < ulong_max
    → key ≢ other
    → (t' : HashTable) × (ht_set all_succeed garbage t key value ≡ some t')
      × (ht_get garbage' t' other ≡ ht_get garbage'' t other)
ht_get-ht_set_ne n m garbage garbage' garbage'' t value v h h' h'' ne = (
  stored t n value,
  ht_set_stores n garbage t value v h,
  ht_get-stored_ne n m garbage' garbage'' t value v h' h'' ne,
)

get_or-replicate : (n i : ℕ) → get_or (replicate {A = List Entry} n []) i [] ≡ []
get_or-replicate zero i = refl
get_or-replicate (suc n) zero = refl
get_or-replicate (suc n) (suc i) = get_or-replicate n i

-- The table that `ht_create` makes for 65536 bins, all of them empty.
pub ht_create-empty :
    (n : ℕ)
    → n ≡ 65536
    → (t : HashTable) × (ht_create true true n ≡ some t)
      × IsTable t
      × ((i : ℕ) → get_or t.table i [] ≡ [])
unfolding ht_create
ht_create-empty n e = (
  record { size = n; table = replicate n [] },
  ground arith,
  record {
    bins = e;
    allocated = length-replicate {A = List Entry} n [] ∙ e;
    sorted = λ i. rw (get_or-replicate n i) tt;
  },
  get_or-replicate n,
)

pub ht_create-IsTable :
    (n : ℕ) → n ≡ 65536 → (t : HashTable) × (ht_create true true n ≡ some t) × IsTable t
ht_create-IsTable n e = let (t, made, valid, empty) = ht_create-empty n e in (t, made, valid)
