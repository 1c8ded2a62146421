-- ===== src/Md5.antt =====
-- proxy/md5.c and proxy/md5.h, which nginx/c/myhash has too: MD5 over 32-bit words.
pub mod Blocks
pub mod Absorbed
pub mod Padded
pub mod Types
use Prim.Native.Nat.{bit_and, bit_or, bit_xor}
use lrued_redis_storage_iceb.Prelude.{
  ℕ, zero, suc, ◌+◌, ◌-◌, ◌*◌, ◌/◌, ◌%◌, ◌^◌, List, [], ◌∷◌, ◌++◌, leb, ltb, if◌then◌else◌, length,
  take, drop, replicate, get_or,
}
use lrued_redis_storage_iceb.State.{Text}

-- `state[4]`, which `MD5Transform` also holds as `a`, `b`, `c` and `d`.
pub record Words : Type 0 where
  pub a : ℕ
  pub b : ℕ
  pub c : ℕ
  pub d : ℕ

pub record Md5Ctx : Type 0 where
  pub count0 : ℕ
  pub count1 : ℕ
  pub state : Words
  pub buffer : Text

-- `unsigned int`
abbrev u32 : ℕ → ℕ
u32 n = n % 2 ^ 32

abbrev complement : ℕ → ℕ
complement x = 2 ^ 32 - 1 - u32 x

-- `F`, `G`, `H` and `I`
unfoldable pub md5_f : ℕ → ℕ → ℕ → ℕ
md5_f x y z = bit_or (bit_and x y) (bit_and (complement x) z)

unfoldable pub md5_g : ℕ → ℕ → ℕ → ℕ
md5_g x y z = bit_or (bit_and x z) (bit_and y (complement z))

unfoldable pub md5_h : ℕ → ℕ → ℕ → ℕ
md5_h x y z = bit_xor (bit_xor x y) z

unfoldable pub md5_i : ℕ → ℕ → ℕ → ℕ
md5_i x y z = bit_xor y (bit_or x (complement z))

unfoldable pub rotate_left : ℕ → ℕ → ℕ
rotate_left x n = bit_or (u32 (x * 2 ^ n)) (x / 2 ^ (32 - n))

-- `FF`, `GG`, `HH` and `II`: what they make of `a`, by the function that they are written with.
unfoldable pub mixed : (ℕ → ℕ → ℕ → ℕ) → Words → ℕ → ℕ → ℕ → ℕ
mixed f w x s ac = u32 (rotate_left (u32 (w.a + f w.b w.c w.d + x + ac)) s + w.b)

-- The lines of one round of `MD5Transform`: the index into `x`, the shift and the constant. Each
-- line has the names of the words moved on by one, so the words are moved here.
unfoldable pub round : (ℕ → ℕ → ℕ → ℕ) → List (ℕ × ℕ × ℕ) → List ℕ → Words → Words
round f [] x w = w
round f ((k, s, ac) ∷ lines) x w =
    round f lines x (record { a = w.d; b = mixed f w (get_or x k 0) s ac; c = w.b; d = w.c })

unfoldable pub round_1 : List (ℕ × ℕ × ℕ)
round_1 =
    (0, 7, 0xd76aa478)
    ∷ (1, 12, 0xe8c7b756)
    ∷ (2, 17, 0x242070db)
    ∷ (3, 22, 0xc1bdceee)
    ∷ (4, 7, 0xf57c0faf)
    ∷ (5, 12, 0x4787c62a)
    ∷ (6, 17, 0xa8304613)
    ∷ (7, 22, 0xfd469501)
    ∷ (8, 7, 0x698098d8)
    ∷ (9, 12, 0x8b44f7af)
    ∷ (10, 17, 0xffff5bb1)
    ∷ (11, 22, 0x895cd7be)
    ∷ (12, 7, 0x6b901122)
    ∷ (13, 12, 0xfd987193)
    ∷ (14, 17, 0xa679438e)
    ∷ (15, 22, 0x49b40821)
    ∷ []

unfoldable pub round_2 : List (ℕ × ℕ × ℕ)
round_2 =
    (1, 5, 0xf61e2562)
    ∷ (6, 9, 0xc040b340)
    ∷ (11, 14, 0x265e5a51)
    ∷ (0, 20, 0xe9b6c7aa)
    ∷ (5, 5, 0xd62f105d)
    ∷ (10, 9, 0x2441453)
    ∷ (15, 14, 0xd8a1e681)
    ∷ (4, 20, 0xe7d3fbc8)
    ∷ (9, 5, 0x21e1cde6)
    ∷ (14, 9, 0xc33707d6)
    ∷ (3, 14, 0xf4d50d87)
    ∷ (8, 20, 0x455a14ed)
    ∷ (13, 5, 0xa9e3e905)
    ∷ (2, 9, 0xfcefa3f8)
    ∷ (7, 14, 0x676f02d9)
    ∷ (12, 20, 0x8d2a4c8a)
    ∷ []

unfoldable pub round_3 : List (ℕ × ℕ × ℕ)
round_3 =
    (5, 4, 0xfffa3942)
    ∷ (8, 11, 0x8771f681)
    ∷ (11, 16, 0x6d9d6122)
    ∷ (14, 23, 0xfde5380c)
    ∷ (1, 4, 0xa4beea44)
    ∷ (4, 11, 0x4bdecfa9)
    ∷ (7, 16, 0xf6bb4b60)
    ∷ (10, 23, 0xbebfbc70)
    ∷ (13, 4, 0x289b7ec6)
    ∷ (0, 11, 0xeaa127fa)
    ∷ (3, 16, 0xd4ef3085)
    ∷ (6, 23, 0x4881d05)
    ∷ (9, 4, 0xd9d4d039)
    ∷ (12, 11, 0xe6db99e5)
    ∷ (15, 16, 0x1fa27cf8)
    ∷ (2, 23, 0xc4ac5665)
    ∷ []

unfoldable pub round_4 : List (ℕ × ℕ × ℕ)
round_4 =
    (0, 6, 0xf4292244)
    ∷ (7, 10, 0x432aff97)
    ∷ (14, 15, 0xab9423a7)
    ∷ (5, 21, 0xfc93a039)
    ∷ (12, 6, 0x655b59c3)
    ∷ (3, 10, 0x8f0ccc92)
    ∷ (10, 15, 0xffeff47d)
    ∷ (1, 21, 0x85845dd1)
    ∷ (8, 6, 0x6fa87e4f)
    ∷ (15, 10, 0xfe2ce6e0)
    ∷ (6, 15, 0xa3014314)
    ∷ (13, 21, 0x4e0811a1)
    ∷ (4, 6, 0xf7537e82)
    ∷ (11, 10, 0xbd3af235)
    ∷ (2, 15, 0x2ad7d2bb)
    ∷ (9, 21, 0xeb86d391)
    ∷ []

-- `MD5Decode`; the bits of the four bytes do not overlap. A byte of 128 and more, shifted by 24, is
-- taken for the number that its bits are.
unfoldable pub md5_decode : Text → List ℕ
md5_decode (b0 ∷ b1 ∷ b2 ∷ b3 ∷ rest) =
    (b0 + b1 * 2 ^ 8 + b2 * 2 ^ 16 + b3 * 2 ^ 24) ∷ md5_decode rest
md5_decode _ = []

unfoldable pub md5_encode : List ℕ → Text
md5_encode [] = []
md5_encode (w ∷ ws) =
    (w % 256) ∷ (w / 2 ^ 8 % 256) ∷ (w / 2 ^ 16 % 256) ∷ (w / 2 ^ 24 % 256) ∷ md5_encode ws

unfoldable pub md5_transform : Words → Text → Words
md5_transform state block =
    let x = md5_decode block in
    let w =
      round md5_i round_4 x
        (round md5_h round_3 x (round md5_g round_2 x (round md5_f round_1 x state))) in
    record {
      a = u32 (state.a + w.a);
      b = u32 (state.b + w.b);
      c = u32 (state.c + w.c);
      d = u32 (state.d + w.d);
    }

-- `memcpy(&buffer[index], text, ...)`
unfoldable pub copy_at : Text → ℕ → Text → Text
copy_at buffer index text = take index buffer ++ (text ++ drop (index + length text) buffer)

-- `for(i = partlen; i+64 <= inputlen; i+=64)`, which runs so often as there are whole blocks; with
-- the bytes that are left.
unfoldable pub transform_blocks : ℕ → Words → Text → Words × Text
transform_blocks zero state rest = (state, rest)
transform_blocks (suc n) state rest =
    transform_blocks n (md5_transform state (take 64 rest)) (drop 64 rest)

-- The buffer is not initialised.
unfoldable pub md5_init : Text → Md5Ctx
md5_init buffer = record {
  count0 = 0;
  count1 = 0;
  state = record { a = 0x67452301; b = 0xefcdab89; c = 0x98badcfe; d = 0x10325476 };
  buffer = buffer;
}

abbrev buffer_index : Md5Ctx → ℕ
buffer_index context = context.count0 / 8 % 64

-- The state and the buffer that `MD5Update` leaves.
unfoldable pub absorb : Words → Text → ℕ → Text → Words × Text
absorb state buffer index input =
    let partlen = 64 - index in
    let filled = copy_at buffer index (take partlen input) in
    let (state', rest) =
      transform_blocks ((length input - partlen) / 64) (md5_transform state filled)
        (drop partlen input) in
    if leb partlen (length input)
    then (state', copy_at filled 0 rest)
    else (state, copy_at buffer index input)

-- For fewer than 2 ^ 32 - 64 bytes, where no index wraps.
unfoldable pub md5_update : Md5Ctx → Text → Md5Ctx
md5_update context input =
    let bits = u32 (length input * 8) in
    let low = u32 (context.count0 + bits) in
    let high = if ltb low bits then u32 (context.count1 + 1) else context.count1 in
    let (state, buffer) = absorb context.state context.buffer (buffer_index context) input in
    record {
      count0 = low;
      count1 = u32 (high + length input / 2 ^ 29);
      state = state;
      buffer = buffer;
    }

-- `PADDING`
unfoldable pub padding : Text
padding = 0x80 ∷ replicate 63 0

abbrev padlen : ℕ → ℕ
padlen index = if ltb index 56 then 56 - index else 120 - index

unfoldable pub md5_final : Md5Ctx → Text
md5_final context =
    let bits = md5_encode (context.count0 ∷ context.count1 ∷ []) in
    let padded = md5_update context (take (padlen (buffer_index context)) padding) in
    let state = (md5_update padded bits).state in
    md5_encode (state.a ∷ state.b ∷ state.c ∷ state.d ∷ [])

-- The calls that `hash` of myhash.c makes.
unfoldable pub md5_digest : Text → Text → Text
md5_digest buffer src = md5_final (md5_update (md5_init buffer) src)
