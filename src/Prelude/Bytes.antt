-- ===== src/Prelude/Bytes.antt =====
-- Strings of C as lists of bytes: what `strncpy`, `strlen` and `strcmp` make of them.
use Prim.Native.Nat.{ℕ, zero, suc}
use Prim.Native.Char.{code}
use Prim.Native.String.{String}
use mathlib.Core.List.{List, [], ◌∷◌}
use lrued_redis_storage_iceb.Prelude.Tests.{◌==◌, ltb, if◌then◌else◌}
use lrued_redis_storage_iceb.Prelude.Lists.{replicate}

-- The bytes of an ASCII text.
abbrev pub codes : String → List ℕ
codes String.[] = []
codes (String.◌∷◌ c s) = code c ∷ codes s

-- `strncpy(dst, src, n)`: the `n` bytes that are written. A byte past the end of `src` reads as 0.
unfoldable pub strncpy : ℕ → List ℕ → List ℕ
strncpy zero src = []
strncpy (suc n) [] = replicate (suc n) 0
strncpy (suc n) (c ∷ src) = if c == 0 then replicate (suc n) 0 else c ∷ strncpy n src

-- The C string at the start of an array: the bytes before the first NUL.
unfoldable pub c_str : List ℕ → List ℕ
c_str [] = []
c_str (c ∷ cs) = if c == 0 then [] else c ∷ c_str cs

-- `strcmp(a, b) > 0`, `== 0` and `< 0`, over strings that end at their last byte.
pub data Order : Type 0 where
  less same more : Order

unfoldable pub strcmp : List ℕ → List ℕ → Order
strcmp [] [] = Order.same
strcmp [] (b ∷ bs) = Order.less
strcmp (a ∷ as') [] = Order.more
strcmp (a ∷ as') (b ∷ bs) =
    if ltb a b then Order.less else if ltb b a then Order.more else strcmp as' bs
