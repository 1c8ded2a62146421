-- ===== src/Parser/Stream.antt =====
-- The slave's answers over a whole connection: proxy/parser.c on one read after the other.
use lrued_redis_storage_iceb.Prelude.{
  ◌≤◌, ◌<◌, ◌≡◌, refl, List, [], ◌∷◌, ◌++◌, arith, length, drop, ◌∙◌, ap, sym, fun_ext,
  length-append, append_assoc,
}
use lrued_redis_storage_iceb.State.{
  Text, WData, Os, Run, ok, exits, undefined, hangs, Globals, M, ◌>>◌, pure, fails, max_read,
}
use lrued_redis_storage_iceb.Store.{object}
use lrued_redis_storage_iceb.Parser.Reply.{set_fields}
use lrued_redis_storage_iceb.Parser.{pop_handle, parse_read_data}
use lrued_redis_storage_iceb.Parser.Number.{NoNul}
use lrued_redis_storage_iceb.Parser.Answers.{
  Answer, answer_bytes, length-answer_bytes, answers_bytes, AllAnswers, handle_all,
}
use lrued_redis_storage_iceb.Parser.Fronts.{
  IsBefore, AllShort, AllShort-split, AllAnswers-split, split, answers_bytes-NoNul, NoNul-front,
  NoNul-back,
}
use lrued_redis_storage_iceb.Parser.Kept.{keep, then_assoc, parse_read_data-kept}
use lrued_redis_storage_iceb.Parser.Blind.{with_answer, map_run, handle_all-IsBlind}

-- What one read brings, and what stands behind it in its array.
pub record Read : Type 0 where
  pub got : Text
  pub stale : Text

unfoldable pub joined : List Read → Text
joined [] = []
joined (r ∷ rs) = r.got ++ joined rs

-- No read is longer than its array.
abbrev pub AllReads : List Read → Type 0
AllReads [] = Unit {0}
AllReads (r ∷ rs) = (length r.got ≤ max_read) × AllReads rs

-- The bytes behind what is kept are of no account.
abbrev pub clean : {W : Type 0} → Globals W → Globals W
clean g = with_answer (record { len = g.buf_slave_answer.len; bytes = [] }) g

abbrev pub nothing_kept : WData
nothing_kept = record { len = 0; bytes = [] }

module _ {W J : Type 0} (os : Os W J) where
  -- `parseReadData` on each read in turn.
  unfoldable pub feed : List Read → M W (Unit {0})
  feed [] = pure tt
  feed (r ∷ rs) =
      parse_read_data os (record { len = length r.got; bytes = r.got ++ r.stale }) >> feed rs

  handle_all-append :
      (as' bs : List Answer) (g : Globals W)
      → handle_all os (as' ++ bs) g ≡ (handle_all os as' >> handle_all os bs) g
  unfolding handle_all
  handle_all-append [] bs g = refl
  handle_all-append (a ∷ as') bs g =
      let hand_on = pop_handle os (object (set_fields os os.json_object a.fields)) in
      ap (λ (k : M W (Unit {0})). (hand_on >> k) g) (fun_ext (handle_all-append as' bs))
      ∙ sym (then_assoc os hand_on (handle_all os as') (handle_all os bs) g)

  -- `keep` puts its text in front of what stood there.
  keep_lem :
      (part : Text) (g : Globals W)
      → g.buf_slave_answer.len ≡ 0
      → (junk : Text) × (keep part g
          ≡ ok (tt, with_answer (record { len = length part; bytes = part ++ junk }) g))
  unfolding keep
  keep_lem [] g e = (
    g.buf_slave_answer.bytes,
    ap (λ n. ok (tt, with_answer (record { len = n; bytes = g.buf_slave_answer.bytes }) g)) e,
  )
  keep_lem (c ∷ part) g e = (drop (length (c ∷ part)) g.buf_slave_answer.bytes, refl)

  nothing_left :
      (answers : List Answer) (kept : Text)
      → IsBefore kept answers
      → kept ++ [] ≡ answers_bytes answers
      → (answers ≡ []) × (kept ≡ [])
  unfolding answers_bytes
  nothing_left [] kept before e = (refl, before)
  nothing_left (a ∷ as') kept before e = absurd (
      omega (
        arith,
        before,
        ap length e,
        length-append kept [],
        length-append (answer_bytes a) (answers_bytes as'),
      ))

  module _ (rs : List Read) (todo : List Answer) (part : Text)
      (further : (junk : Text) (g : Globals W)
        → g.buf_slave_answer ≡ record { len = length part; bytes = part ++ junk }
        → map_run clean (feed rs g)
          ≡ map_run clean (handle_all os todo (with_answer nothing_kept g))) where
    -- What follows the whole answers of a read, however their handling ended.
    after_done :
        (b : WData) (g : Globals W) (r : Run (Unit {0} × Globals W))
        → b.len ≡ 0
        → map_run clean ((fails ((fails (map_run (with_answer b) r) >> keep part) g) >> feed rs) g)
          ≡ map_run clean ((fails (map_run (with_answer nothing_kept) r) >> handle_all os todo) g)
    unfolding map_run
    after_done b g (ok (tt, g1)) e =
        let (junk, kept) = keep_lem part (with_answer b g1) e in
        ap (λ r. map_run clean ((fails r >> feed rs) g)) kept
        ∙ further junk (with_answer (record { len = length part; bytes = part ++ junk }) g1) refl
    after_done b g exits e = refl
    after_done b g undefined e = refl
    after_done b g hangs e = refl

  cleaned :
      (r : Run (Unit {0} × Globals W))
      → map_run clean (map_run (with_answer nothing_kept) r) ≡ map_run (with_answer nothing_kept) r
  unfolding map_run
  cleaned (ok (a, g)) = refl
  cleaned exits = refl
  cleaned undefined = refl
  cleaned hangs = refl

  before_short :
      (kept : Text) (answers : List Answer)
      → AllShort answers
      → IsBefore kept answers
      → length kept < max_read
  before_short kept [] small before = omega (arith, ap length before)
  before_short kept (a ∷ as') small before = omega (arith, before, small.0)

  feed-kept :
      (reads : List Read) (answers : List Answer) (kept junk : Text) (g : Globals W)
      → AllAnswers answers
      → AllShort answers
      → AllReads reads
      → IsBefore kept answers
      → kept ++ joined reads ≡ answers_bytes answers
      → g.buf_slave_answer ≡ record { len = length kept; bytes = kept ++ junk }
      → map_run clean (feed reads g)
        ≡ map_run clean (handle_all os answers (with_answer nothing_kept g))
  unfolding joined feed
  feed-kept [] answers kept junk g v small fit before whole buffered =
      let (no_more, e) = nothing_left answers kept before whole in
      let zero_len : g.buf_slave_answer.len ≡ 0 =
        ap (λ (b : WData). b.len) buffered ∙ ap length e in
      unfold map_run handle_all in
      rw no_more (ap (λ n. ok (tt, with_answer (record { len = n; bytes = [] }) g)) zero_len)
  feed-kept (r ∷ rs) answers kept junk g v small fit before whole buffered =
      let text = kept ++ r.got in
      let whole' : text ++ joined rs ≡ answers_bytes answers =
        append_assoc kept r.got (joined rs) ∙ whole in
      let s = split answers text (joined rs) v small whole' in
      let vs = AllAnswers-split s.done s.todo (rw s.all at v) in
      let smalls = AllShort-split s.done s.todo (rw s.all at small) in
      let no_nul : NoNul text =
        NoNul-front text (joined rs) (rw whole' (answers_bytes-NoNul answers v)) in
      let b : WData = record { len = 0; bytes = kept ++ junk } in
      let kept_short = before_short kept answers small before in
      let step =
        parse_read_data-kept os s.done s.part kept r.got junk r.stale g vs.0 s.cut s.text_is
          (NoNul-front kept r.got no_nul) (NoNul-back kept r.got no_nul)
          (before_short s.part s.todo smalls.1 s.before)
          (omega (arith, kept_short, fit.0, length-append kept r.got)) buffered in
      let start = with_answer nothing_kept g in
      ap (λ r'. map_run clean ((fails r' >> feed rs) g))
        (step ∙ ap (λ r'. (fails r' >> keep s.part) g) ((handle_all-IsBlind os b s.done).blind g))
      ∙ after_done rs s.todo s.part
          (λ junk' g' e.
            feed-kept rs s.todo s.part junk' g' vs.1 smalls.1 fit.1 s.before s.rest_is e)
          b g (handle_all os s.done g) refl
      ∙ ap (λ r'. map_run clean ((fails r' >> handle_all os s.todo) g))
          (sym ((handle_all-IsBlind os nothing_kept s.done).blind g))
      ∙ ap (map_run clean) (sym (handle_all-append s.done s.todo start))
      ∙ ap (λ l. map_run clean (handle_all os l start)) (sym s.all)

  -- However the text of whole answers is cut into reads, `parseReadData` on the reads in turn does
  -- what handing on each answer's object in the order of arrival does, and keeps nothing at the
  -- end. Each answer and each read fits into an array of MAX_READ bytes, and nothing was kept
  -- before. What stands behind the bytes that are kept is not compared.
  pub feed-answers :
      (answers : List Answer) (reads : List Read) (g : Globals W)
      → AllAnswers answers
      → AllShort answers
      → AllReads reads
      → joined reads ≡ answers_bytes answers
      → g.buf_slave_answer.len ≡ 0
      → map_run clean (feed reads g) ≡ map_run (with_answer nothing_kept) (handle_all os answers g)
  feed-answers answers reads g v small fit whole empty =
      feed-kept reads answers [] g.buf_slave_answer.bytes g v small fit (at_first answers) whole
        (ap (λ n. record { len = n; bytes = g.buf_slave_answer.bytes }) empty)
      ∙ ap (map_run clean) ((handle_all-IsBlind os nothing_kept answers).blind g)
      ∙ cleaned (handle_all os answers g)
    where
      at_first : (answers : List Answer) → IsBefore [] answers
      at_first [] = refl
      at_first (a ∷ as') = omega (arith, length-answer_bytes a)
