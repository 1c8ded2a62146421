-- ===== src/Md5/Types.antt =====
-- The values of proxy/md5.c are those of their C types.
use lrued_redis_storage_iceb.Prelude.{
  ℕ, zero, suc, ◌+◌, ◌-◌, ◌*◌, ◌/◌, ◌^◌, ◌≤◌, ◌<◌, ◌≡◌, refl, sym, ◌∙◌, ap, ap₂, inl, inr, List, [],
  ◌∷◌, ◌++◌, arith, leb, Bool-cases, length, take, drop, length-append, length-take, length-drop,
  take-append-drop,
}
use lrued_redis_storage_iceb.State.{Text}
use lrued_redis_storage_iceb.Store.{sum_bytes}
use lrued_redis_storage_iceb.Md5.{
  Words, Md5Ctx, md5_transform, transform_blocks, copy_at, absorb, md5_encode, md5_update,
  md5_final, buffer_index,
}
use lrued_redis_storage_iceb.Md5.Blocks.{absorb_lem}

abbrev pub AllBytes : Text → Type 0
AllBytes [] = Unit {0}
AllBytes (b ∷ bs) = (b < 256) × AllBytes bs

-- `unsigned int state[4]`
pub record IsState (w : Words) : Type 0 where
  pub a_fits : w.a < 2 ^ 32
  pub b_fits : w.b < 2 ^ 32
  pub c_fits : w.c < 2 ^ 32
  pub d_fits : w.d < 2 ^ 32

-- `MD5_CTX`
pub record IsCtx (context : Md5Ctx) : Type 0 where
  pub count0_fits : context.count0 < 2 ^ 32
  pub count1_fits : context.count1 < 2 ^ 32
  pub state_fits : IsState context.state
  pub buffer_size : length context.buffer ≡ 64
  pub buffer_bytes : AllBytes context.buffer

AllBytes-append : (xs ys : Text) → AllBytes xs → AllBytes ys → AllBytes (xs ++ ys)
AllBytes-append [] ys h h' = h'
AllBytes-append (x ∷ xs) ys h h' = (h.0, AllBytes-append xs ys h.1 h')

AllBytes-take : (n : ℕ) (xs : Text) → AllBytes xs → AllBytes (take n xs)
AllBytes-take zero xs h = tt
AllBytes-take (suc n) [] h = tt
AllBytes-take (suc n) (x ∷ xs) h = (h.0, AllBytes-take n xs h.1)

AllBytes-drop : (n : ℕ) (xs : Text) → AllBytes xs → AllBytes (drop n xs)
AllBytes-drop zero xs h = h
AllBytes-drop (suc n) [] h = tt
AllBytes-drop (suc n) (x ∷ xs) h = AllBytes-drop n xs h.1

copy_at-AllBytes :
    (buffer : Text) (index : ℕ) (text : Text)
    → AllBytes buffer
    → AllBytes text
    → AllBytes (copy_at buffer index text)
unfolding copy_at
copy_at-AllBytes buffer index text h h' =
    AllBytes-append (take index buffer) _ (AllBytes-take index buffer h)
      (AllBytes-append text _ h' (AllBytes-drop (index + length text) buffer h))

md5_transform-IsState : (w : Words) (block : Text) → IsState (md5_transform w block)
unfolding md5_transform
md5_transform-IsState w block = record {
  a_fits = omega arith;
  b_fits = omega arith;
  c_fits = omega arith;
  d_fits = omega arith;
}

transform_blocks-Fits :
    (n : ℕ) (w : Words) (text : Text)
    → IsState w
    → AllBytes text
    → IsState (transform_blocks n w text).0 × AllBytes (transform_blocks n w text).1
unfolding transform_blocks
transform_blocks-Fits zero w text s h = (s, h)
transform_blocks-Fits (suc n) w text s h =
    transform_blocks-Fits n (md5_transform w (take 64 text)) (drop 64 text)
      (md5_transform-IsState w (take 64 text)) (AllBytes-drop 64 text h)

absorb-Fits :
    (w : Words) (buffer : Text) (index : ℕ) (input : Text)
    → IsState w
    → AllBytes buffer
    → AllBytes input
    → IsState (absorb w buffer index input).0 × AllBytes (absorb w buffer index input).1
unfolding absorb
absorb-Fits w buffer index input s h h' =
    let front = take (64 - index) input in
    let filled = copy_at buffer index front in
    let filled_bytes =
      copy_at-AllBytes buffer index front h (AllBytes-take (64 - index) input h') in
    let n = (length input - (64 - index)) / 64 in
    let (fits, bytes) =
      transform_blocks-Fits n (md5_transform w filled) (drop (64 - index) input)
        (md5_transform-IsState w filled) (AllBytes-drop (64 - index) input h') in
    elim (Bool-cases (leb (64 - index) (length input))) [
      | inl enough ↦ rw enough (fits, copy_at-AllBytes filled 0 _ filled_bytes bytes)
      | inr few ↦ rw few (s, copy_at-AllBytes buffer index input h h')
    ]

-- The buffer keeps its size: nothing is copied past its end.
absorb_size :
    (w : Words) (buffer : Text) (index : ℕ) (input : Text)
    → length buffer ≡ 64
    → index < 64
    → length (absorb w buffer index input).1 ≡ 64
absorb_size w buffer index input size inside =
    let kept = take index buffer in
    let junk = drop index buffer in
    let at : length kept ≡ index = omega (arith, length-take index buffer) in
    let (bs, rest, junk', split, full, done) =
      absorb_lem w kept junk input (omega (arith, at))
        (omega (arith, at, length-drop index buffer)) in
    ap₂ (λ b i. length (absorb w b i input).1) (sym (take-append-drop index buffer)) (sym at)
    ∙ ap (λ r. length r.1) done
    ∙ length-append rest junk'
    ∙ full

md5_update-IsCtx :
    (context : Md5Ctx) (input : Text)
    → IsCtx context
    → AllBytes input
    → IsCtx (md5_update context input)
unfolding md5_update
md5_update-IsCtx context input c h =
    let index = buffer_index context in
    let (fits, bytes) =
      absorb-Fits context.state context.buffer index input c.state_fits c.buffer_bytes h in
    record {
      count0_fits = omega arith;
      count1_fits = omega arith;
      state_fits = fits;
      buffer_size =
          absorb_size context.state context.buffer index input c.buffer_size (omega arith);
      buffer_bytes = bytes;
    }

md5_encode-AllBytes : (ws : List ℕ) → AllBytes (md5_encode ws)
unfolding md5_encode
md5_encode-AllBytes [] = tt
md5_encode-AllBytes (w ∷ ws) =
    (omega arith, (omega arith, (omega arith, (omega arith, md5_encode-AllBytes ws))))

sum_bytes-AllBytes : (bs : Text) → AllBytes bs → sum_bytes bs ≤ 255 * length bs
unfolding sum_bytes
sum_bytes-AllBytes [] h = omega arith
sum_bytes-AllBytes (b ∷ bs) h = omega (arith, h.0, sum_bytes-AllBytes bs h.1)

-- MD5Update on bytes keeps a context within the types of its fields: six words of 32 bits and a
-- buffer of 64 bytes. MD5Final then gives sixteen bytes, which add up to at most 4080 in `hash`.
pub md5_types :
    (context : Md5Ctx) (input : Text)
    → IsCtx context
    → AllBytes input
    → IsCtx (md5_update context input)
      × (let digest = md5_final (md5_update context input) in
          (length digest ≡ 16) × AllBytes digest × (sum_bytes digest ≤ 4080))
unfolding md5_final md5_encode
md5_types context input c h =
    let digest = md5_final (md5_update context input) in
    let bytes : AllBytes digest = search (md5_encode-AllBytes) in
    (md5_update-IsCtx context input c h, (refl, bytes, sum_bytes-AllBytes digest bytes))
