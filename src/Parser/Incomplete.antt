-- ===== src/Parser/Incomplete.antt =====
-- An answer that is cut off is kept by `parseArray` of proxy/parser.c, from its first byte on.
use lrued_redis_storage_iceb.Prelude.{
  ℕ, ◌+◌, ◌-◌, ◌*◌, ◌≤◌, ◌<◌, ◌≡◌, refl, inl, inr, some, [], ◌∷◌, ◌++◌, arith, length, drop, ◌∙◌,
  ap, ap₂, sym, length-append, append_assoc, append-nil,
}
use lrued_redis_storage_iceb.Prelude.Int.{pos}
use lrued_redis_storage_iceb.State.{Text, WData, Os, Globals}
use lrued_redis_storage_iceb.Parser.{
  byte_at, int_max, number_from, parse_array, finish_array, incomplete, parse_one,
}
use lrued_redis_storage_iceb.Parser.Number.{
  get_or_of_drop, drop_next, drop_past, value_of, read_number_lem,
}
use lrued_redis_storage_iceb.Parser.Reply.{max_len, fields_bytes}
use lrued_redis_storage_iceb.Parser.Answers.{
  Answer, IsAnswer, answer_bytes, length-answer_bytes, fields_long,
}
use lrued_redis_storage_iceb.Parser.Cut.{
  append_split, cons_head, cons_tail, IsDigits-front, value_of-front, read_number_to_end,
}
use lrued_redis_storage_iceb.Parser.CutAnswer.{fields_some, parse_items-cut}

module _ {W J : Type 0} (os : Os W J) (wdata : WData) (start : ℕ) (a : Answer) (v : IsAnswer a)
    (small : length (answer_bytes a) ≤ max_len) (short : wdata.len ≤ max_len) (g : Globals W) where
  cut_in_number :
      (ds more junk : Text)
      → ds ++ more ≡ a.digits
      → drop start wdata.bytes ≡ 42 ∷ (ds ++ junk)
      → start + 1 + length ds ≡ wdata.len
      → parse_array os wdata start g ≡ incomplete os wdata start g
  unfolding parse_array
  cut_in_number ds more junk front at ends =
      let rounds : wdata.len - (start + 1) ≡ length ds = omega arith in
      let value_ok : value_of 0 ds + 48 ≤ int_max = omega (
        arith,
        value_of-front 0 ds more,
        ap (value_of 0) front,
        v.counts,
        fields_long a.fields,
        length-answer_bytes a,
      ) in
      let number =
        read_number_to_end wdata (start + 1) 0 ds junk (drop_next wdata.bytes start 42 _ at)
          (IsDigits-front ds more (rw front v.numeral)) value_ok in
      ground (arith, rounds, number)

  module _ (junk : Text) where
    number_before :
        (rest : Text)
        → drop start wdata.bytes ≡ 42 ∷ (a.digits ++ (13 ∷ rest))
        → start + 1 + length a.digits < wdata.len
        → number_from wdata (start + 1)
          ≡ some (pos (2 * length a.fields), start + 1 + length a.digits)
    number_before rest at inside = rw (← v.counts) (
        read_number_lem (wdata.len - (start + 1)) wdata (start + 1) 0 a.digits _
          (drop_next wdata.bytes start 42 _ at) v.numeral
          (omega (arith, v.counts, fields_long a.fields, length-answer_bytes a)) (omega arith))

    cut_in_newline :
        drop start wdata.bytes ≡ 42 ∷ (a.digits ++ (13 ∷ junk))
        → start + 1 + length a.digits + 1 ≡ wdata.len
        → parse_array os wdata start g ≡ incomplete os wdata start g
    unfolding parse_array
    cut_in_newline at ends = ground (arith, number_before junk at (omega arith))

    cut_behind_newline :
        drop start wdata.bytes ≡ 42 ∷ (a.digits ++ (13 ∷ 10 ∷ junk))
        → start + 1 + length a.digits + 2 ≡ wdata.len
        → 0 < length a.fields
        → parse_array os wdata start g ≡ incomplete os wdata start g
    unfolding parse_array
    cut_behind_newline at ends h = ground (arith, number_before (10 ∷ junk) at (omega arith))

    cut_in_fields :
        (part missing : Text)
        → drop start wdata.bytes ≡ 42 ∷ (a.digits ++ (13 ∷ 10 ∷ (part ++ junk)))
        → start + 1 + length a.digits + 2 + length part ≡ wdata.len
        → 0 < length part
        → 0 < length missing
        → part ++ missing ≡ fields_bytes a.fields
        → parse_array os wdata start g ≡ incomplete os wdata start g
    unfolding parse_array finish_array
    cut_in_fields part missing at ends h left cut =
        let items =
          parse_items-cut os wdata short missing junk left a.fields part
            (start + 1 + length a.digits + 2) os.json_object (2 * length a.fields) v.fields_ok
            (omega (arith, small, length-answer_bytes a))
            (drop_past wdata.bytes (start + 1 + length a.digits) (13 ∷ 10 ∷ []) _
              (drop_past wdata.bytes (start + 1) a.digits _ (drop_next wdata.bytes start 42 _ at)))
            cut h (omega arith) refl in
        ground (arith, number_before (10 ∷ (part ++ junk)) at (omega arith), items)

  module _ (part missing junk : Text) (at : drop start wdata.bytes ≡ part ++ junk)
      (cut : part ++ missing ≡ answer_bytes a) (ends : start + length part ≡ wdata.len)
      (some_bytes : 0 < length part) (left : 0 < length missing) where
    -- What stands behind the digits of the header.
    behind_digits :
        (more : Text)
        → part ≡ (42 ∷ a.digits) ++ more
        → more ++ missing ≡ 13 ∷ 10 ∷ fields_bytes a.fields
        → parse_array os wdata start g ≡ incomplete os wdata start g
    behind_digits more e e' =
        go more (at_more ∙ ap (λ l. 42 ∷ l) (append_assoc a.digits more junk))
          (omega (arith, ends, ap length e, length-append a.digits more)) e'
      where
        at_more : drop start wdata.bytes ≡ 42 ∷ ((a.digits ++ more) ++ junk)
        at_more = at ∙ ap (λ l. l ++ junk) e

        line_end :
            (c d : ℕ) (more : Text)
            → c ∷ d ∷ (more ++ missing) ≡ 13 ∷ 10 ∷ fields_bytes a.fields
            → 42 ∷ (a.digits ++ (c ∷ d ∷ (more ++ junk)))
              ≡ 42 ∷ (a.digits ++ (13 ∷ 10 ∷ (more ++ junk)))
        line_end c d more e =
            ap₂ (λ x y. 42 ∷ (a.digits ++ (x ∷ y ∷ (more ++ junk)))) (cons_head e)
              (cons_head (cons_tail e))

        go :
            (more : Text)
            → drop start wdata.bytes ≡ 42 ∷ (a.digits ++ (more ++ junk))
            → start + 1 + length a.digits + length more ≡ wdata.len
            → more ++ missing ≡ 13 ∷ 10 ∷ fields_bytes a.fields
            → parse_array os wdata start g ≡ incomplete os wdata start g
        go [] at ends e = cut_in_number a.digits [] junk (append-nil a.digits) at (omega arith)
        go (c ∷ []) at ends e =
            cut_in_newline junk (at ∙ ap (λ x. 42 ∷ (a.digits ++ (x ∷ junk))) (cons_head e))
              (omega arith)
        go (c ∷ d ∷ []) at ends e =
            cut_behind_newline junk (at ∙ line_end c d [] e) (omega arith)
              (fields_some a.fields (omega (arith, ap length e)))
        go (c ∷ d ∷ x ∷ more) at ends e =
            cut_in_fields junk (x ∷ more) missing (at ∙ line_end c d (x ∷ more) e) (omega arith)
              (omega arith) left (cons_tail (cons_tail e))

    parse_array-cut : parse_array os wdata start g ≡ incomplete os wdata start g
    unfolding answer_bytes
    parse_array-cut =
        elim (append_split part missing (42 ∷ a.digits) (13 ∷ 10 ∷ fields_bytes a.fields) cut) [
          | inl (more, e, e') ↦ behind_digits more e e'
          | inr (tail, h, e, e') ↦ in_front part tail at ends some_bytes e
        ]
      where
        in_front :
            (part tail : Text)
            → drop start wdata.bytes ≡ part ++ junk
            → start + length part ≡ wdata.len
            → 0 < length part
            → 42 ∷ a.digits ≡ part ++ tail
            → parse_array os wdata start g ≡ incomplete os wdata start g
        in_front [] tail at ends h e = absurd (omega arith)
        in_front (c ∷ ds) tail at ends h e =
            cut_in_number ds tail junk (sym (cons_tail e))
              (at ∙ ap (λ x. x ∷ (ds ++ junk)) (sym (cons_head e))) (omega (arith, ends))

    -- A cut answer is kept as it is.
    pub parse_one-cut : parse_one os wdata start g ≡ incomplete os wdata start g
    unfolding parse_one answer_bytes
    parse_one-cut = ground (arith, first part at some_bytes cut, parse_array-cut)
      where
        first :
            (part : Text)
            → drop start wdata.bytes ≡ part ++ junk
            → 0 < length part
            → part ++ missing ≡ 42 ∷ (a.digits ++ (13 ∷ 10 ∷ fields_bytes a.fields))
            → byte_at wdata start ≡ 42
        first [] at h cut = absurd (omega arith)
        first (c ∷ part) at h cut = get_or_of_drop wdata.bytes start c _ at ∙ cons_head cut
