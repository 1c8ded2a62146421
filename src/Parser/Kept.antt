-- ===== src/Parser/Kept.antt =====
-- A read that ends inside an answer: `parseReadData` of proxy/parser.c hands on the whole answers
-- and keeps the rest.
use lrued_redis_storage_iceb.Prelude.{
  ℕ, zero, suc, ◌+◌, ◌-◌, ◌≤◌, ◌<◌, ◌≡◌, refl, inl, inr, true, false, List, [], ◌∷◌, ◌++◌, arith,
  length, drop, ltb, ◌∙◌, ap, sym, fun_ext, length-append, append_assoc,
}
use lrued_redis_storage_iceb.State.{Text, WData, Os, ok, Globals, M, ◌>>◌, pure, modify, max_read}
use lrued_redis_storage_iceb.Store.{object}
use lrued_redis_storage_iceb.Parser.{
  save_to_buf, incomplete, pop_handle, go_on, parse_loop, parse_read_data,
}
use lrued_redis_storage_iceb.Parser.Number.{drop_past, NoNul, strncpy_whole}
use lrued_redis_storage_iceb.Parser.Reply.{max_len, set_fields}
use lrued_redis_storage_iceb.Parser.Answers.{
  Answer, answer_bytes, answers_bytes, answers_long, AllAnswers, handle_all, merged_lem,
  parse_loop-answer,
}
use lrued_redis_storage_iceb.Parser.Fronts.{IsCut, NoNul-append, NoNul-back}
use lrued_redis_storage_iceb.Parser.Incomplete.{parse_one-cut}

-- What is kept of an answer that is cut off.
unfoldable pub keep : {W : Type 0} → Text → M W (Unit {0})
keep [] = pure tt
keep (c ∷ part) = modify (λ g. record g {
  buf_slave_answer = record {
    len = length (c ∷ part);
    bytes = (c ∷ part) ++ drop (length (c ∷ part)) g.buf_slave_answer.bytes;
  };
})

saved :
    (part : Text) (wdata buf : WData) (index : ℕ) (junk : Text)
    → NoNul part
    → length part < max_read
    → drop index wdata.bytes ≡ part ++ junk
    → index + length part ≡ wdata.len
    → save_to_buf wdata index buf
      ≡ record { len = length part; bytes = part ++ drop (length part) buf.bytes }
unfolding save_to_buf
saved part wdata buf index junk clean small at ends =
    let size : wdata.len - index ≡ length part = omega (arith, ends) in
    let copied = strncpy_whole part junk clean in ground (arith, size, at, copied)

module _ {W J : Type 0} (os : Os W J) where
  pub then_assoc :
      {A : Type 0} (m k : M W (Unit {0})) (l : M W A) (g : Globals W)
      → ((m >> k) >> l) g ≡ (m >> (k >> l)) g
  then_assoc m k l g = ground arith

  keeps_part :
      (part : Text) (wdata : WData) (index : ℕ) (junk : Text) (g : Globals W)
      → IsCut part
      → NoNul part
      → length part < max_read
      → wdata.len ≤ max_len
      → drop index wdata.bytes ≡ part ++ junk
      → index + length part ≡ wdata.len
      → (rounds : ℕ) → parse_loop os (suc rounds) wdata index g ≡ keep part g
  unfolding parse_loop keep go_on incomplete save_to_buf
  keeps_part part wdata index junk g (inl e) clean small short at ends rounds =
      let here : ltb index wdata.len ≡ false = ground (arith, e, ap length e) in
      rw (here, parse_loop, e) refl
  keeps_part [] wdata index junk g (inr front) clean small short at ends rounds =
      absurd (omega (arith, front.some_bytes))
  keeps_part (c ∷ part) wdata index junk g (inr front) clean small short at ends rounds =
      let here : ltb index wdata.len ≡ true = ground (arith, ends) in
      let one =
        parse_one-cut os wdata index front.answer front.valid (omega (arith, front.small)) short g
          (c ∷ part) front.missing junk at front.whole ends front.some_bytes front.left in
      rw (here, parse_loop)
        (ap (λ r. go_on os r (parse_loop os rounds wdata)) one
          ∙ ap (λ b. ok (tt, record g { buf_slave_answer = b }))
              (saved (c ∷ part) wdata g.buf_slave_answer index junk clean small at ends))

  parse_loop-kept :
      (answers : List Answer) (part : Text) (rounds : ℕ) (wdata : WData) (index : ℕ) (junk : Text)
      (g : Globals W)
      → AllAnswers answers
      → IsCut part
      → NoNul part
      → length part < max_read
      → wdata.len ≤ max_len
      → drop index wdata.bytes ≡ answers_bytes answers ++ (part ++ junk)
      → index + length (answers_bytes answers) + length part ≡ wdata.len
      → length answers < rounds
      → parse_loop os rounds wdata index g ≡ (handle_all os answers >> keep part) g
  unfolding handle_all answers_bytes
  parse_loop-kept answers part zero wdata index junk g v cut clean small short at ends enough =
      absurd (omega arith)
  parse_loop-kept [] part (suc rounds) wdata index junk g v cut clean small short at ends enough =
      keeps_part part wdata index junk g cut clean small short at (omega arith) rounds
  parse_loop-kept (a ∷ as') part (suc rounds) wdata index junk g v cut clean small short at ends
        enough =
      let at' = at ∙ append_assoc (answer_bytes a) (answers_bytes as') (part ++ junk) in
      let sizes = length-append (answer_bytes a) (answers_bytes as') in
      let next = index + length (answer_bytes a) in
      let hand_on = pop_handle os (object (set_fields os os.json_object a.fields)) in
      let more = fun_ext (λ g'.
        parse_loop-kept as' part rounds wdata next junk g' v.1 cut clean small short
          (drop_past wdata.bytes index (answer_bytes a) _ at') (omega (arith, sizes))
          (omega arith)) in
      parse_loop-answer os wdata a index rounds _ g v.0 short at' (omega (arith, sizes))
      ∙ ap (λ (k : M W (Unit {0})). (hand_on >> k) g) more
      ∙ sym (then_assoc hand_on (handle_all os as') (keep part) g)

  -- A read that completes what was kept hands on the whole answers of both, and keeps the rest.
  pub parse_read_data-kept :
      (answers : List Answer) (part kept chunk junk stale : Text) (g : Globals W)
      → AllAnswers answers
      → IsCut part
      → kept ++ chunk ≡ answers_bytes answers ++ part
      → NoNul kept
      → NoNul chunk
      → length part < max_read
      → length (kept ++ chunk) < max_len
      → g.buf_slave_answer ≡ record { len = length kept; bytes = kept ++ junk }
      → parse_read_data os (record { len = length chunk; bytes = chunk ++ stale }) g
        ≡ (handle_all os answers >> keep part)
            (record g { buf_slave_answer = record { len = 0; bytes = kept ++ junk } })
  unfolding parse_read_data
  parse_read_data-kept answers part kept chunk junk stale g v cut whole clean clean' small short
        buffered =
      let (rest, e) =
        merged_lem kept chunk junk stale g.buf_slave_answer (ap (λ (b : WData). b.len) buffered)
          (ap (λ (b : WData). b.bytes) buffered) clean clean' short in
      let sizes = length-append (answers_bytes answers) part in
      let clean_part =
        NoNul-back (answers_bytes answers) part
          (rw (← whole) (NoNul-append kept chunk clean clean')) in
      rw (e, whole, buffered)
        (parse_loop-kept answers part _ (record { len = _; bytes = _ }) 0 rest _ v cut clean_part
          small (omega (arith, ap length whole)) (append_assoc (answers_bytes answers) part rest)
          (omega (arith, sizes)) (omega (arith, answers_long os answers, sizes)))
