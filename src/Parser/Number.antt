-- ===== src/Parser/Number.antt =====
-- Decimal numbers and copied strings, as proxy/parser.c reads them from an array.
use lrued_redis_storage_iceb.Prelude.{
  ℕ, zero, suc, ◌+◌, ◌-◌, ◌*◌, ◌≤◌, ◌<◌, ◌≡◌, refl, ◌≢◌, some, List, [], ◌∷◌, ◌++◌, arith, length,
  drop, get_or, strncpy, c_str,
}
use native.Mathlib.Numerals.{add-one}
use native.Mathlib.Nat.{add-zero}
use lrued_redis_storage_iceb.Prelude.Int.{pos}
use lrued_redis_storage_iceb.State.{WData}
use lrued_redis_storage_iceb.Parser.{int_max, add_digit, read_number}

pub get_or_of_drop :
    (bs : List ℕ) (i c : ℕ) (rest : List ℕ) → drop i bs ≡ c ∷ rest → get_or bs i 0 ≡ c
get_or_of_drop [] zero c rest h = ground arith
get_or_of_drop [] (suc i) c rest h = ground arith
get_or_of_drop (b ∷ bs) zero c rest h = ground arith
get_or_of_drop (b ∷ bs) (suc i) c rest h = get_or_of_drop bs i c rest h

pub drop_next :
    (bs : List ℕ) (i c : ℕ) (rest : List ℕ) → drop i bs ≡ c ∷ rest → drop (i + 1) bs ≡ rest
drop_next bs i c rest h = rw add-one (go bs i h)
  where
    go : (bs : List ℕ) (i : ℕ) → drop i bs ≡ c ∷ rest → drop (suc i) bs ≡ rest
    go [] zero h = ground arith
    go [] (suc i) h = ground arith
    go (b ∷ bs) zero h = ground arith
    go (b ∷ bs) (suc i) h = go bs i h

pub drop_past :
    (bs : List ℕ) (i : ℕ) (xs rest : List ℕ)
    → drop i bs ≡ xs ++ rest
    → drop (i + length xs) bs ≡ rest
drop_past bs i [] rest h = rw add-zero h
drop_past bs i (x ∷ xs) rest h =
    let e : i + suc (length xs) ≡ i + 1 + length xs = omega arith in
    rw e (drop_past bs (i + 1) xs rest (drop_next bs i x (xs ++ rest) h))

abbrev pub IsDigits : List ℕ → Type 0
IsDigits [] = Unit {0}
IsDigits (d ∷ ds) = (48 ≤ d) × (d < 58) × IsDigits ds

-- The number that digits stand for, behind `acc`.
unfoldable pub value_of : ℕ → List ℕ → ℕ
value_of acc [] = acc
value_of acc (d ∷ ds) = value_of (acc * 10 + (d - 48)) ds

pub le-value_of : (acc : ℕ) (ds : List ℕ) → acc ≤ value_of acc ds
unfolding value_of
le-value_of acc [] = omega arith
le-value_of acc (d ∷ ds) = omega (arith, le-value_of (acc * 10 + (d - 48)) ds)

pub add_digit_lem :
    (acc d : ℕ)
    → 48 ≤ d
    → d < 58
    → acc * 10 + d ≤ int_max
    → add_digit (pos acc) d ≡ some (pos (acc * 10 + (d - 48)))
unfolding add_digit
add_digit_lem acc d lo hi fits = ground arith

-- The digits up to a `\\r` are read as their number, if it is small enough for `int`.
pub read_number_lem :
    (rounds : ℕ) (wdata : WData) (index acc : ℕ) (ds rest : List ℕ)
    → drop index wdata.bytes ≡ ds ++ (13 ∷ rest)
    → IsDigits ds
    → value_of acc ds + 48 ≤ int_max
    → length ds ≤ rounds
    → read_number rounds wdata index (pos acc) ≡ some (pos (value_of acc ds), index + length ds)
unfolding read_number value_of
read_number_lem zero wdata index acc [] rest at digits small long = rw add-zero
read_number_lem zero wdata index acc (d ∷ ds) rest at digits small long = absurd (omega arith)
read_number_lem (suc rounds) wdata index acc [] rest at digits small long =
    ground (arith, get_or_of_drop wdata.bytes index 13 rest at)
read_number_lem (suc rounds) wdata index acc (d ∷ ds) rest at digits small long = ground (
  arith,
  get_or_of_drop wdata.bytes index d (ds ++ (13 ∷ rest)) at,
  add_digit_lem acc d,
  le-value_of (acc * 10 + (d - 48)) ds,
  read_number_lem rounds wdata (index + 1) (acc * 10 + (d - 48)) ds rest
      (drop_next wdata.bytes index d _ at),
)

abbrev pub NoNul : List ℕ → Type 0
NoNul [] = Unit {0}
NoNul (c ∷ cs) = (c ≢ 0) × NoNul cs

-- A string without NUL is copied whole, and read back whole.
pub strncpy_whole : (cs rest : List ℕ) → NoNul cs → strncpy (length cs) (cs ++ rest) ≡ cs
unfolding strncpy
strncpy_whole [] rest h = refl
strncpy_whole (c ∷ cs) rest h = ground (arith, strncpy_whole cs rest)

pub c_str_whole : (cs : List ℕ) → NoNul cs → c_str cs ≡ cs
unfolding c_str
c_str_whole [] h = refl
c_str_whole (c ∷ cs) h = ground (arith, c_str_whole cs)
