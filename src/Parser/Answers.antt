-- ===== src/Parser/Answers.antt =====
-- A read of whole answers by `parseReadData` of proxy/parser.c: each is handed on, in order.
use lrued_redis_storage_iceb.Prelude.{
  ℕ, zero, suc, ◌+◌, ◌-◌, ◌*◌, ◌≤◌, ◌<◌, ◌≡◌, refl, true, some, List, [], ◌∷◌, ◌++◌, arith, length,
  drop, ltb, ◌∙◌, ap, fun_ext, length-append, append_assoc, append-nil,
}
use lrued_redis_storage_iceb.Prelude.Int.{pos}
use lrued_redis_storage_iceb.State.{Text, WData, Os, ok, Globals, M, ◌>>◌, pure}
use lrued_redis_storage_iceb.Store.{object}
use lrued_redis_storage_iceb.Parser.{
  byte_at, number_from, invalid, parse_items, finish_array, parse_array, parse_one, parse_loop,
  parse_read_data, merged, pop_handle, go_on,
}
use lrued_redis_storage_iceb.Parser.Number.{
  get_or_of_drop, drop_next, drop_past, IsDigits, value_of, read_number_lem, NoNul, strncpy_whole,
}
use lrued_redis_storage_iceb.Parser.Reply.{
  item_bytes, length-item_bytes, Field, AllFields, fields_bytes, set_fields, parse_items_lem,
  max_len,
}

-- An answer to HGETALL, with the digits of the number of its items.
pub record Answer : Type 0 where
  pub digits : Text
  pub fields : List Field

pub record IsAnswer (a : Answer) : Type 0 where
  pub numeral : IsDigits a.digits
  pub counts : value_of 0 a.digits ≡ 2 * length a.fields
  pub fields_ok : AllFields a.fields

-- `*<digits>\r\n` and the fields
unfoldable pub answer_bytes : Answer → Text
answer_bytes a = 42 ∷ (a.digits ++ (13 ∷ 10 ∷ fields_bytes a.fields))

pub length-answer_bytes :
    (a : Answer) → length (answer_bytes a) ≡ length a.digits + length (fields_bytes a.fields) + 3
unfolding answer_bytes
length-answer_bytes a = omega (arith, length-append a.digits (13 ∷ 10 ∷ fields_bytes a.fields))

pub fields_long : (fs : List Field) → 10 * length fs ≤ length (fields_bytes fs)
unfolding fields_bytes
fields_long [] = omega arith
fields_long (f ∷ fs) = omega (
  arith,
  length-append (item_bytes f.name) (item_bytes f.content ++ fields_bytes fs),
  length-append (item_bytes f.content) (fields_bytes fs),
  length-item_bytes f.name,
  length-item_bytes f.content,
  fields_long fs,
)

module _ (wdata : WData) (start : ℕ) (a : Answer) (rest : List ℕ)
    (at : drop start wdata.bytes ≡ answer_bytes a ++ rest) where
  first_of_answer : byte_at wdata start ≡ 42
  unfolding answer_bytes
  first_of_answer = get_or_of_drop wdata.bytes start 42 _ at

  digits_on : drop (start + 1) wdata.bytes ≡ a.digits ++ (13 ∷ 10 ∷ (fields_bytes a.fields ++ rest))
  unfolding answer_bytes
  digits_on =
      drop_next wdata.bytes start 42 _ at
      ∙ append_assoc a.digits (13 ∷ 10 ∷ fields_bytes a.fields) rest

  fields_on : drop (start + 1 + length a.digits + 2) wdata.bytes ≡ fields_bytes a.fields ++ rest
  fields_on =
      drop_past wdata.bytes (start + 1 + length a.digits) (13 ∷ 10 ∷ []) _
        (drop_past wdata.bytes (start + 1) a.digits _ digits_on)

  module _ (v : IsAnswer a) (short : wdata.len ≤ max_len)
      (whole : start + length (answer_bytes a) ≤ wdata.len) where
    header_number :
        number_from wdata (start + 1)
        ≡ some (pos (2 * length a.fields), start + 1 + length a.digits)
    header_number = rw (← v.counts) (
        read_number_lem (wdata.len - (start + 1)) wdata (start + 1) 0 a.digits _ digits_on v.numeral
          (omega (arith, v.counts, length-answer_bytes a, fields_long a.fields))
          (omega (arith, length-answer_bytes a)))

    module _ {W J : Type 0} (os : Os W J) where
      -- The items behind the header make the object, up to the byte behind the answer.
      items_read :
          parse_items os wdata
            (2 * length a.fields)
            invalid
            os.json_object
            (some (start + 1 + length a.digits + 2))
          ≡ ok
              (some (some (start + length (answer_bytes a)), set_fields os os.json_object a.fields))
      items_read =
          parse_items_lem os wdata a.fields _ os.json_object rest _ v.fields_ok short fields_on
            (omega (arith, length-answer_bytes a)) refl
          ∙ ap (λ m. ok (some (some m, set_fields os os.json_object a.fields)))
              (omega (arith, length-answer_bytes a))

      -- A whole answer is handed on as the object of its fields, and the next index is behind it.
      parse_array_lem :
          (g : Globals W)
          → parse_array os wdata start g
            ≡ (pop_handle os (object (set_fields os os.json_object a.fields))
                  >> pure (some (start + length (answer_bytes a))))
                g
      unfolding parse_array finish_array
      parse_array_lem g =
          ground (arith, header_number, items_read, length-answer_bytes a, fields_long a.fields)

unfoldable pub answers_bytes : List Answer → Text
answers_bytes [] = []
answers_bytes (a ∷ as') = answer_bytes a ++ answers_bytes as'

abbrev pub AllAnswers : List Answer → Type 0
AllAnswers [] = Unit {0}
AllAnswers (a ∷ as') = IsAnswer a × AllAnswers as'

-- What was kept of the last read and what comes now are one text again, if neither has a NUL.
pub merged_lem :
    (kept chunk junk stale : Text) (buf : WData)
    → buf.len ≡ length kept
    → buf.bytes ≡ kept ++ junk
    → NoNul kept
    → NoNul chunk
    → length (kept ++ chunk) < max_len
    → (rest : Text) × (merged buf (record { len = length chunk; bytes = chunk ++ stale })
        ≡ record { len = length (kept ++ chunk); bytes = (kept ++ chunk) ++ rest })
unfolding merged
merged_lem [] chunk junk stale buf e f clean clean' short = (stale, ground arith)
merged_lem (k ∷ kept) chunk junk stale buf e f clean clean' short = (
  [],
  ground (
    arith,
    strncpy_whole (k ∷ kept) junk clean,
    strncpy_whole chunk stale clean',
    length-append (k ∷ kept) chunk,
    append-nil ((k ∷ kept) ++ chunk),
  ),
)

module _ {W J : Type 0} (os : Os W J) where
  -- Each answer's object goes to `popHandle`, in the order of arrival.
  unfoldable pub handle_all : List Answer → M W (Unit {0})
  handle_all [] = pure tt
  handle_all (a ∷ as') =
      pop_handle os (object (set_fields os os.json_object a.fields)) >> handle_all as'

  pub go_on-pure :
      (m : M W (Unit {0})) (i : ℕ) (rest : ℕ → M W (Unit {0})) (g : Globals W)
      → go_on os ((m >> pure (some i)) g) rest ≡ (m >> rest i) g
  unfolding go_on
  go_on-pure m i rest g = ground arith

  parse_one_lem :
      (wdata : WData) (start : ℕ) (a : Answer) (rest : List ℕ)
      → drop start wdata.bytes ≡ answer_bytes a ++ rest
      → IsAnswer a
      → wdata.len ≤ max_len
      → start + length (answer_bytes a) ≤ wdata.len
      → (g : Globals W)
      → parse_one os wdata start g
        ≡ (pop_handle os (object (set_fields os os.json_object a.fields))
              >> pure (some (start + length (answer_bytes a))))
            g
  unfolding parse_one
  parse_one_lem wdata start a rest at v short whole g =
      rw (first_of_answer wdata start a rest at, parse_one)
        (parse_array_lem wdata start a rest at v short whole os g)

  -- One round of the loop at a whole answer.
  pub parse_loop-answer :
      (wdata : WData) (a : Answer) (index rounds : ℕ) (rest : List ℕ) (g : Globals W)
      → IsAnswer a
      → wdata.len ≤ max_len
      → drop index wdata.bytes ≡ answer_bytes a ++ rest
      → index + length (answer_bytes a) ≤ wdata.len
      → parse_loop os (suc rounds) wdata index g
        ≡ (pop_handle os (object (set_fields os os.json_object a.fields))
              >> parse_loop os rounds wdata (index + length (answer_bytes a)))
            g
  unfolding parse_loop
  parse_loop-answer wdata a index rounds rest g v short at whole =
      let next = index + length (answer_bytes a) in
      let inside : ltb index wdata.len ≡ true = ground (arith, length-answer_bytes a, whole) in
      let one = parse_one_lem wdata index a rest at v short whole g in
      let hand_on = pop_handle os (object (set_fields os os.json_object a.fields)) in
      rw (inside, parse_loop)
        (ap (λ r. go_on os r (parse_loop os rounds wdata)) one
          ∙ go_on-pure hand_on next (parse_loop os rounds wdata) g)

  parse_loop_lem :
      (answers : List Answer) (rounds : ℕ) (wdata : WData) (index : ℕ) (rest : List ℕ)
      (g : Globals W)
      → AllAnswers answers
      → wdata.len ≤ max_len
      → drop index wdata.bytes ≡ answers_bytes answers ++ rest
      → index + length (answers_bytes answers) ≡ wdata.len
      → length answers < rounds
      → parse_loop os rounds wdata index g ≡ handle_all answers g
  unfolding handle_all answers_bytes
  parse_loop_lem answers zero wdata index rest g v short at whole enough = absurd (omega arith)
  parse_loop_lem [] (suc rounds) wdata index rest g v short at whole enough =
      unfold parse_loop in ground arith
  parse_loop_lem (a ∷ as') (suc rounds) wdata index rest g v short at whole enough =
      let at' = at ∙ append_assoc (answer_bytes a) (answers_bytes as') rest in
      let sizes = length-append (answer_bytes a) (answers_bytes as') in
      let hand_on = pop_handle os (object (set_fields os os.json_object a.fields)) in
      let more = fun_ext (λ g'.
        parse_loop_lem as' rounds wdata (index + length (answer_bytes a)) rest g' v.1 short
          (drop_past wdata.bytes index (answer_bytes a) _ at') (omega (arith, sizes))
          (omega arith)) in
      parse_loop-answer wdata a index rounds _ g v.0 short at' (omega (arith, sizes))
      ∙ ap (λ (k : M W (Unit {0})). (hand_on >> k) g) more

  pub answers_long : (answers : List Answer) → length answers ≤ length (answers_bytes answers)
  unfolding answers_bytes
  answers_long [] = omega arith
  answers_long (a ∷ as') = omega (
    arith,
    answers_long as',
    length-append (answer_bytes a) (answers_bytes as'),
    length-answer_bytes a,
  )

  -- A read that completes what was kept to whole answers ends, and hands each answer on as the
  -- object of its fields, in the order of arrival. It does not matter where the text was cut, nor
  -- what else stands in the arrays.
  pub parse_read_data-answers :
      (answers : List Answer) (kept chunk junk stale : Text) (g : Globals W)
      → AllAnswers answers
      → kept ++ chunk ≡ answers_bytes answers
      → NoNul kept
      → NoNul chunk
      → length (answers_bytes answers) < max_len
      → g.buf_slave_answer ≡ record { len = length kept; bytes = kept ++ junk }
      → parse_read_data os (record { len = length chunk; bytes = chunk ++ stale }) g
        ≡ handle_all answers
            (record g { buf_slave_answer = record { len = 0; bytes = kept ++ junk } })
  unfolding parse_read_data
  parse_read_data-answers answers kept chunk junk stale g v whole clean clean' short buffered =
      let (rest, e) =
        merged_lem kept chunk junk stale g.buf_slave_answer (ap (λ (b : WData). b.len) buffered)
          (ap (λ (b : WData). b.bytes) buffered) clean clean' (rw whole short) in
      rw (e, whole, buffered)
        (parse_loop_lem answers _ (record { len = _; bytes = _ }) 0 rest _ v (omega arith) refl
          (omega arith) (omega (arith, answers_long answers)))
