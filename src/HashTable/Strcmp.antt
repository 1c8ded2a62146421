-- ===== src/HashTable/Strcmp.antt =====
-- `strcmp` orders the strings, which the sorted bins of proxy/hash_table.c rest on.
use lrued_redis_storage_iceb.Prelude.{ℕ, ◌≡◌, refl, List, [], ◌∷◌, arith, Order, strcmp}

unfoldable pub flip : Order → Order
flip Order.less = Order.more
flip Order.same = Order.same
flip Order.more = Order.less

pub strcmp_self : (a : List ℕ) → strcmp a a ≡ Order.same
unfolding strcmp
strcmp_self [] = refl
strcmp_self (x ∷ a) = ground (arith, strcmp_self a)

pub eq_of_same : (a b : List ℕ) → strcmp a b ≡ Order.same → a ≡ b
unfolding strcmp
eq_of_same [] [] h = refl
eq_of_same [] (y ∷ b) h = ground arith
eq_of_same (x ∷ a) [] h = ground arith
eq_of_same (x ∷ a) (y ∷ b) h = ground (arith, eq_of_same a b)

pub strcmp-flip : (a b : List ℕ) → strcmp b a ≡ flip (strcmp a b)
unfolding strcmp flip
strcmp-flip [] [] = refl
strcmp-flip [] (y ∷ b) = refl
strcmp-flip (x ∷ a) [] = refl
strcmp-flip (x ∷ a) (y ∷ b) = ground (arith, strcmp-flip a b)

pub less_trans :
    (a b c : List ℕ) → strcmp a b ≡ Order.less → strcmp b c ≡ Order.less → strcmp a c ≡ Order.less
unfolding strcmp
less_trans [] [] c h k = k
less_trans [] (y ∷ b) [] h k = ground arith
less_trans [] (y ∷ b) (z ∷ c) h k = refl
less_trans (x ∷ a) [] c h k = ground arith
less_trans (x ∷ a) (y ∷ b) [] h k = ground arith
less_trans (x ∷ a) (y ∷ b) (z ∷ c) h k = ground (arith, less_trans a b c)
