-- ===== src/Prelude/Tabulate.antt =====
-- Lists given by a function on indices, and reads after a write.
use Prim.Native.Nat.{ℕ, zero, suc, ◌<◌}
use mathlib.Core.Path.{◌≡◌, refl, ap₂, ap}
use mathlib.Core.List.{List, [], ◌∷◌, ◌++◌}
use mathlib.Core.Logic.{◌≢◌}
use native.Mathlib.Omega.{arith}
use lrued_redis_storage_iceb.Prelude.Lists.{length, get_or, set}

module _ {ℓ} {A : Type ℓ} where
  -- `f 0, f 1, …, f (n - 1)`
  abbrev pub tabulate : ℕ → (ℕ → A) → List A
  tabulate zero f = []
  tabulate (suc n) f = f 0 ∷ tabulate n (λ k. f (suc k))

  pub length-tabulate : (n : ℕ) (f : ℕ → A) → length (tabulate n f) ≡ n
  length-tabulate zero f = refl
  length-tabulate (suc n) f = ap suc (length-tabulate n (λ k. f (suc k)))

  pub tabulate_congr :
      (n : ℕ) (f g : ℕ → A) → ((k : ℕ) → k < n → f k ≡ g k) → tabulate n f ≡ tabulate n g
  tabulate_congr zero f g h = refl
  tabulate_congr (suc n) f g h =
      ap₂ ◌∷◌ (h 0 (omega arith))
        (tabulate_congr n (λ k. f (suc k)) (λ k. g (suc k)) (λ k lt. h (suc k) (omega arith)))

  pub tabulate-suc_last : (n : ℕ) (f : ℕ → A) → tabulate (suc n) f ≡ tabulate n f ++ (f n ∷ [])
  tabulate-suc_last zero f = refl
  tabulate-suc_last (suc n) f = ap (λ l. f 0 ∷ l) (tabulate-suc_last n (λ k. f (suc k)))

  pub get_or-set_hit : (xs : List A) (i : ℕ) (v d : A) → i < length xs → get_or (set xs i v) i d ≡ v
  get_or-set_hit [] i v d h = absurd (omega arith)
  get_or-set_hit (x ∷ xs) zero v d h = refl
  get_or-set_hit (x ∷ xs) (suc i) v d h = get_or-set_hit xs i v d (omega arith)

  pub get_or-set_miss :
      (xs : List A) (i j : ℕ) (v d : A) → i ≢ j → get_or (set xs i v) j d ≡ get_or xs j d
  get_or-set_miss [] i j v d h = refl
  get_or-set_miss (x ∷ xs) zero zero v d h = absurd (h refl)
  get_or-set_miss (x ∷ xs) zero (suc j) v d h = refl
  get_or-set_miss (x ∷ xs) (suc i) zero v d h = refl
  get_or-set_miss (x ∷ xs) (suc i) (suc j) v d h = get_or-set_miss xs i j v d (λ e. h (ap suc e))
