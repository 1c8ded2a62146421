-- ===== src/HashTable/Hash.antt =====
-- The bin that `ht_hash` of proxy/hash_table.c chooses, whatever its uninitialised local holds.
use lrued_redis_storage_iceb.Prelude.{ℕ, ◌+◌, ◌*◌, ◌%◌, ◌<◌, ◌≡◌, List, [], ◌∷◌, ◌++◌, arith}
use lrued_redis_storage_iceb.HashTable.{HashTable, ulong_max, mix, hash_loop, ht_hash}

abbrev pub IsAscii : List ℕ → Type 0
IsAscii [] = Unit {0}
IsAscii (c ∷ cs) = (c < 128) × IsAscii cs

-- An ASCII byte is not 255, so the loop never stops early behind one.
mix-lt : (h c : ℕ) → c < 128 → mix h c < ulong_max
unfolding mix
mix-lt h c lt = ground arith

mix_low : (h a b : ℕ) → a < 128 → b < 128 → mix (mix h a) b % 65536 ≡ a * 256 + b
unfolding mix
mix_low h a b ha hb = ground arith

hash_loop_low :
    (h : ℕ) (xs : List ℕ) (a b : ℕ)
    → h < ulong_max
    → IsAscii (xs ++ (a ∷ b ∷ []))
    → hash_loop h (xs ++ (a ∷ b ∷ [])) % 65536 ≡ a * 256 + b
unfolding hash_loop
hash_loop_low h [] a b lt ascii = ground (arith, mix-lt h a, mix-lt (mix h a) b, mix_low h a b)
hash_loop_low h (x ∷ xs) a b lt ascii = ground (arith, mix-lt h x, hash_loop_low (mix h x) xs a b)

-- In a table of 65536 bins an ASCII key of two characters or more goes to the bin that its last two
-- characters name, for any uninitialised value but `ULONG_MAX`.
pub ht_hash_last_two :
    (garbage : ℕ) (t : HashTable) (xs : List ℕ) (a b : ℕ)
    → t.size ≡ 65536
    → garbage < ulong_max
    → IsAscii (xs ++ (a ∷ b ∷ []))
    → ht_hash garbage t (xs ++ (a ∷ b ∷ [])) ≡ a * 256 + b
unfolding ht_hash
ht_hash_last_two garbage t xs a b size lt ascii = rw size (hash_loop_low garbage xs a b lt ascii)
