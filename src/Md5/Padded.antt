-- ===== src/Md5/Padded.antt =====
-- The digest of proxy/md5.c beside that of the padded text, cut into blocks.
use lrued_redis_storage_iceb.Prelude.{
  ℕ, zero, suc, ◌-◌, ◌*◌, ◌/◌, ◌%◌, ◌^◌, ◌≤◌, ◌<◌, ◌≡◌, refl, sym, ◌∙◌, ap, ap₂, subst, List, [],
  ◌∷◌, ◌++◌, arith, length, take, drop, replicate, append_assoc, append-nil, length-append,
  length-replicate, map,
}
use lrued_redis_storage_iceb.State.{Text}
use lrued_redis_storage_iceb.Md5.{
  Words, Md5Ctx, u32, md5_encode, md5_init, md5_update, md5_final, padding, md5_digest, padlen,
  buffer_index,
}
use lrued_redis_storage_iceb.Md5.Blocks.{run_blocks, joined, AllBlocks, take_front, drop_behind}
use lrued_redis_storage_iceb.Md5.Absorbed.{
  start, Absorbed, length-Split, index_lem, md5_init-Absorbed, md5_update-Absorbed,
}

-- The bytes of a number, the lowest first.
unfoldable pub little_endian : ℕ → ℕ → Text
little_endian zero n = []
little_endian (suc bytes) n = n % 256 ∷ little_endian bytes (n / 256)

-- A text as MD5 wants it: a byte 0x80 behind it, zeros up to 56 modulo 64, and its number of bits.
unfoldable pub padded : Text → Text
padded text =
    text
    ++ (0x80
        ∷ (replicate ((119 - length text % 64) % 64) 0
            ++ little_endian 8 (length text * 8 % 2 ^ 64)))

unfoldable pub chunks : ℕ → Text → List Text
chunks zero text = []
chunks (suc n) text = take 64 text ∷ chunks n (drop 64 text)

abbrev bytes_of : Words → Text
bytes_of w =
    little_endian 4 w.a ++ (little_endian 4 w.b ++ (little_endian 4 w.c ++ little_endian 4 w.d))

-- The digest: the blocks of the padded text one after the other.
unfoldable pub reference : Text → Text
reference text = bytes_of (run_blocks start (chunks (length (padded text) / 64) (padded text)))

-- The context once the pieces of a text have been given to MD5Update.
unfoldable pub feed : Md5Ctx → List Text → Md5Ctx
feed context [] = context
feed context (piece ∷ pieces) = feed (md5_update context piece) pieces

chunks-joined :
    (bs : List Text) (rest : Text) → AllBlocks bs → chunks (length bs) (joined bs ++ rest) ≡ bs
unfolding chunks joined
chunks-joined [] rest h = refl
chunks-joined (b ∷ bs) rest h =
    let whole = append_assoc b (joined bs) rest in
    ap₂ (λ c cs. c ∷ cs)
      (ap (take 64) whole
        ∙ subst (λ n. take n (b ++ (joined bs ++ rest)) ≡ b) h.0 (take_front b (joined bs ++ rest)))
      (ap (λ t. chunks (length bs) (drop 64 t)) whole
        ∙ ap (chunks (length bs)) (drop_behind b (joined bs ++ rest) 0 64 (omega (arith, h.0)))
        ∙ chunks-joined bs rest h.1)

take-replicate : (k n : ℕ) → k ≤ n → take k (replicate {A = ℕ} n 0) ≡ replicate k 0
take-replicate zero n h = refl
take-replicate (suc k) zero h = absurd (omega arith)
take-replicate (suc k) (suc n) h = ap (λ l. 0 ∷ l) (take-replicate k n (omega arith))

padding_lem :
    (text : Text) (index : ℕ)
    → index ≡ length text % 64
    → take (padlen index) padding ≡ 0x80 ∷ replicate ((119 - length text % 64) % 64) 0
unfolding padding
padding_lem text index h =
    let k = (119 - length text % 64) % 64 in
    let number : padlen index ≡ suc k = ground (arith, h) in
    ap (λ n. take n padding) number ∙ ap (λ l. 0x80 ∷ l) (take-replicate k 63 (omega arith))

md5_encode-bytes_of : (w : Words) → md5_encode (w.a ∷ w.b ∷ w.c ∷ w.d ∷ []) ≡ bytes_of w
unfolding md5_encode little_endian
md5_encode-bytes_of w = ground arith

md5_encode-bits :
    (n : ℕ) → md5_encode (u32 n ∷ u32 (n / 2 ^ 32) ∷ []) ≡ little_endian 8 (n % 2 ^ 64)
unfolding md5_encode little_endian
md5_encode-bits n = ground arith

feed-Absorbed :
    {context : Md5Ctx} {text : Text} (pieces : List Text)
    → Absorbed context text
    → Absorbed (feed context pieces) (text ++ joined pieces)
unfolding feed joined
feed-Absorbed {context = context} {text = text} [] a = rw (append-nil text) a
feed-Absorbed {context = context} {text = text} (piece ∷ pieces) a =
    subst (Absorbed _) (append_assoc text piece (joined pieces))
      (feed-Absorbed {context = md5_update context piece} pieces (md5_update-Absorbed piece a))

-- A whole number of blocks leaves nothing in the buffer.
blocks_of_whole :
    {context : Md5Ctx} {text : Text} (a : Absorbed context text)
    → length text % 64 ≡ 0
    → a.blocks ≡ chunks (length text / 64) text
blocks_of_whole {text = text} a h =
    let size = length-Split a.split in
    let number : length text / 64 ≡ length a.blocks = omega (arith, size, a.split.short) in
    sym (chunks-joined a.blocks a.rest a.split.whole) ∙ ap₂ chunks (sym number) (sym a.split.cut)

length-little_endian : (k n : ℕ) → length (little_endian k n) ≡ k
unfolding little_endian
length-little_endian zero n = refl
length-little_endian (suc k) n = ap suc (length-little_endian k (n / 256))

padded-whole : (text : Text) → length (padded text) % 64 ≡ 0
unfolding padded
padded-whole text =
    let zeros : List ℕ = replicate ((119 - length text % 64) % 64) 0 in
    let bits = little_endian 8 (length text * 8 % 2 ^ 64) in
    omega (
      arith,
      length-append text (0x80 ∷ (zeros ++ bits)),
      length-append zeros bits,
      length-replicate {A = ℕ} ((119 - length text % 64) % 64) 0,
      length-little_endian 8 (length text * 8 % 2 ^ 64),
    )

-- MD5Final behind a text.
md5_final-Absorbed :
    {context : Md5Ctx} (text : Text) → Absorbed context text → md5_final context ≡ reference text
unfolding md5_final reference padded
md5_final-Absorbed {context = context} text a =
    let pad = take (padlen (buffer_index context)) padding in
    let bits = md5_encode (context.count0 ∷ context.count1 ∷ []) in
    let index : buffer_index context ≡ length text % 64 =
      omega (arith, index_lem a, length-Split a.split, a.split.short) in
    let same : (text ++ pad) ++ bits ≡ padded text =
      append_assoc text pad bits
      ∙ ap₂ (λ p b. text ++ (p ++ b)) (padding_lem text (buffer_index context) index)
          (ap₂ (λ l h. md5_encode (l ∷ h ∷ [])) a.low a.high ∙ md5_encode-bits (length text * 8)) in
    let behind : Absorbed (md5_update (md5_update context pad) bits) (padded text) =
      subst (Absorbed _) same (md5_update-Absorbed bits (md5_update-Absorbed pad a)) in
    let state =
      behind.state_of ∙ ap (run_blocks start) (blocks_of_whole behind (padded-whole text)) in
    md5_encode-bytes_of (md5_update (md5_update context pad) bits).state ∙ ap bytes_of state

-- The pieces have the lengths that MD5Update is modelled for.
abbrev AllShort : List Text → Type 0
AllShort [] = Unit {0}
AllShort (piece ∷ pieces) = (length piece < 2 ^ 32 - 64) × AllShort pieces

-- For a text in pieces of fewer than 2 ^ 32 - 64 bytes each, cut anywhere, and whatever 64 bytes
-- stand in the uninitialised buffer, MD5Init, MD5Update for each piece and MD5Final give the digest
-- of the reference: the text is padded as a whole, with its number of bits modulo 2 ^ 64, and its
-- blocks of 64 bytes are taken one after the other.
pub md5_pieces :
    (buffer : Text) (pieces : List Text)
    → length buffer ≡ 64
    → AllShort pieces
    → md5_final (feed (md5_init buffer) pieces) ≡ reference (joined pieces)
md5_pieces buffer pieces h fits =
    md5_final-Absorbed (joined pieces) (feed-Absorbed pieces (md5_init-Absorbed buffer h))

md5_encode-bytes : (ws : List ℕ) → map (λ b. b % 256) (md5_encode ws) ≡ md5_encode ws
unfolding md5_encode
md5_encode-bytes [] = refl
md5_encode-bytes (w ∷ ws) = ground (arith, md5_encode-bytes ws)

-- The digest of a text given at once.
pub md5_digest_lem :
    (buffer src : Text) → length buffer ≡ 64 → md5_digest buffer src ≡ reference src
unfolding md5_digest
md5_digest_lem buffer src h =
    md5_final-Absorbed src (md5_update-Absorbed src (md5_init-Absorbed buffer h))

-- A digest is a list of bytes.
pub reference-bytes : (text : Text) → map (λ b. b % 256) (reference text) ≡ reference text
unfolding reference
reference-bytes text =
    let w = run_blocks start (chunks (length (padded text) / 64) (padded text)) in
    subst (λ l. map (λ b. b % 256) l ≡ l) (md5_encode-bytes_of w) (md5_encode-bytes _)
