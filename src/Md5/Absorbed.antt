-- ===== src/Md5/Absorbed.antt =====
-- MD5Update of proxy/md5.c on a text in pieces.
use lrued_redis_storage_iceb.Prelude.{
  ◌+◌, ◌*◌, ◌/◌, ◌^◌, ◌≡◌, refl, sym, ◌∙◌, ap, ap₂, List, [], ◌∷◌, ◌++◌, arith, length,
  append_assoc, length-append,
}
use lrued_redis_storage_iceb.State.{Text}
use lrued_redis_storage_iceb.Md5.{
  Words, Md5Ctx, u32, md5_transform, absorb, md5_init, md5_update, buffer_index,
}
use lrued_redis_storage_iceb.Md5.Blocks.{
  run_blocks, joined, AllBlocks, Split, length-joined, absorb_lem,
}

abbrev pub start : Words
start = (md5_init []).state

joined-append : (bs cs : List Text) → joined (bs ++ cs) ≡ joined bs ++ joined cs
unfolding joined
joined-append [] cs = refl
joined-append (b ∷ bs) cs =
    ap (λ t. b ++ t) (joined-append bs cs) ∙ sym (append_assoc b (joined bs) (joined cs))

AllBlocks-append : (bs cs : List Text) → AllBlocks bs → AllBlocks cs → AllBlocks (bs ++ cs)
AllBlocks-append [] cs h h' = h'
AllBlocks-append (b ∷ bs) cs h h' = (h.0, AllBlocks-append bs cs h.1 h')

run_blocks-append :
    (w : Words) (bs cs : List Text) → run_blocks w (bs ++ cs) ≡ run_blocks (run_blocks w bs) cs
unfolding run_blocks
run_blocks-append w [] cs = refl
run_blocks-append w (b ∷ bs) cs = run_blocks-append (md5_transform w b) bs cs

-- The context once a text has been given to it, in whatever pieces.
pub record Absorbed (context : Md5Ctx) (text : Text) : Type 0 where
  pub blocks : List Text
  pub rest : Text
  pub junk : Text
  pub split : Split blocks rest text
  pub full : length rest + length junk ≡ 64
  pub state_of : context.state ≡ run_blocks start blocks
  pub buffer_of : context.buffer ≡ rest ++ junk
  pub low : context.count0 ≡ u32 (length text * 8)
  pub high : context.count1 ≡ u32 (length text * 8 / 2 ^ 32)

pub md5_init-Absorbed : (buffer : Text) → length buffer ≡ 64 → Absorbed (md5_init buffer) []
unfolding md5_init run_blocks joined
md5_init-Absorbed buffer h = record {
  blocks = [];
  rest = [];
  junk = buffer;
  split = record { whole = tt; cut = refl; short = omega arith };
  full = omega (arith, h);
  state_of = refl;
  buffer_of = refl;
  low = refl;
  high = refl;
}

pub length-Split :
    {bs : List Text} {rest text : Text}
    → Split bs rest text
    → length text ≡ 64 * length bs + length rest
length-Split {bs = bs} {rest = rest} s =
    ap length s.cut ∙ omega (arith, length-append (joined bs) rest, length-joined bs s.whole)

pub index_lem :
    {context : Md5Ctx} {text : Text} (a : Absorbed context text)
    → buffer_index context ≡ length a.rest
index_lem a = omega (arith, a.low, length-Split a.split, a.split.short)

pub md5_update-Absorbed :
    {context : Md5Ctx} {text : Text} (input : Text)
    → Absorbed context text
    → Absorbed (md5_update context input) (text ++ input)
unfolding md5_update
md5_update-Absorbed {context = context} {text = text} input a =
    let (bs, rest', junk', split', full', done) =
      absorb_lem context.state a.rest a.junk input a.split.short a.full in
    let goes : absorb context.state context.buffer (buffer_index context) input
        ≡ (run_blocks context.state bs, rest' ++ junk') =
      ap₂ (λ b i. absorb context.state b i input) a.buffer_of (index_lem a) ∙ done in
    record {
      blocks = a.blocks ++ bs;
      rest = rest';
      junk = junk';
      split = record {
        whole = AllBlocks-append a.blocks bs a.split.whole split'.whole;
        cut =
            ap (λ t. t ++ input) a.split.cut
            ∙ append_assoc (joined a.blocks) a.rest input
            ∙ ap (λ t. joined a.blocks ++ t) split'.cut
            ∙ sym (append_assoc (joined a.blocks) (joined bs) rest')
            ∙ ap (λ t. t ++ rest') (sym (joined-append a.blocks bs));
        short = split'.short;
      };
      full = full';
      state_of =
          ap (λ r. r.0) goes
          ∙ ap (λ w. run_blocks w bs) a.state_of
          ∙ sym (run_blocks-append start a.blocks bs);
      buffer_of = ap (λ r. r.1) goes;
      low = omega (arith, a.low, length-append text input);
      high = ground (arith, a.low, a.high, length-append text input);
    }
