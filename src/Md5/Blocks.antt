-- ===== src/Md5/Blocks.antt =====
-- The loop of MD5Update of proxy/md5.c over whole blocks of 64 bytes.
use lrued_redis_storage_iceb.Prelude.{
  ℕ, zero, suc, ◌+◌, ◌-◌, ◌*◌, ◌/◌, ◌≤◌, ◌<◌, ◌≡◌, refl, sym, ◌∙◌, ap, ap₂, inl, inr, true, false,
  List, [], ◌∷◌, ◌++◌, arith, leb, Bool-cases, length, take, drop, append_assoc, append-nil,
  length-append, length-take, length-drop, take-append-drop,
}
use lrued_redis_storage_iceb.State.{Text}
use lrued_redis_storage_iceb.Md5.{Words, md5_transform, transform_blocks, copy_at, absorb}

-- The state behind a list of blocks.
unfoldable pub run_blocks : Words → List Text → Words
run_blocks state [] = state
run_blocks state (block ∷ blocks) = run_blocks (md5_transform state block) blocks

unfoldable pub joined : List Text → Text
joined [] = []
joined (text ∷ texts) = text ++ joined texts

abbrev pub AllBlocks : List Text → Type 0
AllBlocks [] = Unit {0}
AllBlocks (block ∷ blocks) = (length block ≡ 64) × AllBlocks blocks

drop_all : (xs : Text) (n : ℕ) → length xs ≤ n → drop n xs ≡ []
drop_all [] zero h = refl
drop_all [] (suc n) h = refl
drop_all (x ∷ xs) zero h = absurd (omega arith)
drop_all (x ∷ xs) (suc n) h = drop_all xs n (omega arith)

pub take_front : (xs ys : Text) → take (length xs) (xs ++ ys) ≡ xs
take_front [] ys = refl
take_front (x ∷ xs) ys = ap (λ l. x ∷ l) (take_front xs ys)

pub drop_behind : (xs ys : Text) (n m : ℕ) → m ≡ length xs + n → drop m (xs ++ ys) ≡ drop n ys
drop_behind [] ys n m h = ap (λ k. drop k ys) (omega (arith, h))
drop_behind (x ∷ xs) ys n zero h = absurd (omega (arith, h))
drop_behind (x ∷ xs) ys n (suc m) h = drop_behind xs ys n m (omega (arith, h))

pub length-joined : (bs : List Text) → AllBlocks bs → length (joined bs) ≡ 64 * length bs
unfolding joined
length-joined [] h = refl
length-joined (b ∷ bs) h = omega (arith, length-append b (joined bs), h.0, length-joined bs h.1)

-- A text as whole blocks and fewer than 64 bytes.
pub record Split (blocks : List Text) (rest text : Text) : Type 0 where
  pub whole : AllBlocks blocks
  pub cut : text ≡ joined blocks ++ rest
  pub short : length rest < 64

-- As many rounds as there are whole blocks take them all.
transform_blocks_lem :
    (n : ℕ) (state : Words) (text : Text)
    → length text / 64 ≡ n
    → (bs : List Text) × (rest : Text) × Split bs rest text
      × (transform_blocks n state text ≡ (run_blocks state bs, rest))
unfolding transform_blocks run_blocks joined
transform_blocks_lem zero state text h =
    ([], text, record { whole = tt; cut = refl; short = omega arith }, refl)
transform_blocks_lem (suc n) state text h =
    let (bs, rest, split, done) =
      transform_blocks_lem n (md5_transform state (take 64 text)) (drop 64 text)
        (omega (arith, length-drop 64 text)) in
    (
      take 64 text ∷ bs,
      rest,
      record {
        whole = (omega (arith, length-take 64 text), split.whole);
        cut =
            sym (take-append-drop 64 text)
            ∙ ap (λ t. take 64 text ++ t) split.cut
            ∙ sym (append_assoc (take 64 text) (joined bs) rest);
        short = split.short;
      },
      done,
    )

regroup : (a b c d : Text) → a ++ (b ++ (c ++ d)) ≡ ((a ++ b) ++ c) ++ d
regroup a b c d = simp append_assoc

copy_at_lem :
    (kept junk text : Text)
    → copy_at (kept ++ junk) (length kept) text ≡ kept ++ (text ++ drop (length text) junk)
unfolding copy_at
copy_at_lem kept junk text =
    ap₂ (λ s t. s ++ (text ++ t)) (take_front kept junk)
      (drop_behind kept junk (length text) (length kept + length text) refl)

-- A text that is at least as long as what it covers.
copy_at_covers :
    (kept junk text : Text)
    → length junk ≤ length text
    → copy_at (kept ++ junk) (length kept) text ≡ kept ++ text
copy_at_covers kept junk text h =
    copy_at_lem kept junk text
    ∙ ap (λ t. kept ++ (text ++ t)) (drop_all junk (length text) h)
    ∙ ap (λ t. kept ++ t) (append-nil text)

module _ (state : Words) (kept junk input : Text) (h : length kept < 64)
    (full : length kept + length junk ≡ 64) where
  -- What `MD5Update` makes of the bytes that waited in the buffer and of the new ones.
  abbrev Absorbs : Type 0
  Absorbs =
      (bs : List Text) × (rest junk' : Text) × Split bs rest (kept ++ input)
      × (length rest + length junk' ≡ 64)
      × (absorb state (kept ++ junk) (length kept) input ≡ (run_blocks state bs, rest ++ junk'))

  absorb_few : leb (64 - length kept) (length input) ≡ false → Absorbs
  unfolding absorb run_blocks joined
  absorb_few few =
      let below : length input < 64 - length kept = ground (arith, few) in
      (
        [],
        kept ++ input,
        drop (length input) junk,
        record { whole = tt; cut = refl; short = omega (arith, length-append kept input) },
        omega (arith, length-append kept input, length-drop (length input) junk),
        rw few (
            ap (λ t. (state, t))
              (copy_at_lem kept junk input
                ∙ sym (append_assoc kept input (drop (length input) junk)))),
      )

  absorb_enough : leb (64 - length kept) (length input) ≡ true → Absorbs
  unfolding absorb run_blocks joined
  absorb_enough enough =
      let partlen = 64 - length kept in
      let front = take partlen input in
      let n = (length input - partlen) / 64 in
      let some_left : partlen ≤ length input = ground (arith, enough) in
      let size : length front ≡ partlen = omega (arith, length-take partlen input) in
      let filled : copy_at (kept ++ junk) (length kept) front ≡ kept ++ front =
        copy_at_covers kept junk front (omega (arith, size)) in
      let (bs, rest, split, done) =
        transform_blocks_lem n (md5_transform state (kept ++ front)) (drop partlen input)
          (omega (arith, length-drop partlen input)) in
      (
        (kept ++ front) ∷ bs,
        rest,
        drop (length rest) (kept ++ front),
        record {
          whole = (omega (arith, length-append kept front, size), split.whole);
          cut =
              ap (λ t. kept ++ t)
                (sym (take-append-drop partlen input) ∙ ap (λ t. front ++ t) split.cut)
              ∙ regroup kept front (joined bs) rest;
          short = split.short;
        },
        omega (
          arith,
          length-append kept front,
          size,
          split.short,
          length-drop (length rest) (kept ++ front),
        ),
        rw (enough, filled, done)
            (ap (λ t. (run_blocks (md5_transform state (kept ++ front)) bs, t))
              (copy_at_lem [] (kept ++ front) rest)),
      )

  pub absorb_lem : Absorbs
  absorb_lem = elim (Bool-cases (leb (64 - length kept) (length input))) [
    | inl enough ↦ absorb_enough enough
    | inr few ↦ absorb_few few
  ]
