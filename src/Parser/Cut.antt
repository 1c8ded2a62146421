-- ===== src/Parser/Cut.antt =====
-- An answer that is cut off, as proxy/parser.c meets it at the end of a read.
use lrued_redis_storage_iceb.Prelude.{
  ℕ, ◌+◌, ◌-◌, ◌*◌, ◌≤◌, ◌<◌, ◌≡◌, refl, ◌⊎◌, inl, inr, some, none, [], ◌∷◌, ◌++◌, arith, length,
  drop, ◌∙◌, ap, ap₂, sym, length-append, append_assoc, append-nil,
}
use lrued_redis_storage_iceb.Prelude.Int.{pos}
use lrued_redis_storage_iceb.State.{Text, WData, Os, ok}
use lrued_redis_storage_iceb.Parser.{
  int_max, number_from, read_number, ItemKey, behind_item, runs_out, after_length, parse_item,
}
use lrued_redis_storage_iceb.Parser.Number.{
  get_or_of_drop, drop_next, IsDigits, value_of, le-value_of, add_digit_lem, read_number_lem,
}
use lrued_redis_storage_iceb.Parser.Reply.{Item, IsItem, item_bytes, length-item_bytes, max_len}

pub cons_head : {x y : ℕ} {xs ys : Text} → x ∷ xs ≡ y ∷ ys → x ≡ y
cons_head e = cc e

pub cons_tail : {x y : ℕ} {xs ys : Text} → x ∷ xs ≡ y ∷ ys → xs ≡ ys
cons_tail e = cc e

-- Two ways to cut a list: the second cut is behind the first, or strictly before it.
pub append_split :
    (part missing xs ys : Text)
    → part ++ missing ≡ xs ++ ys
    → ((more : Text) × (part ≡ xs ++ more) × (more ++ missing ≡ ys))
      ⊎ ((tail : Text) × (0 < length tail) × (xs ≡ part ++ tail) × (missing ≡ tail ++ ys))
append_split part missing [] ys e = inl (part, refl, e)
append_split [] missing (x ∷ xs) ys e = inr (x ∷ xs, omega arith, refl, e)
append_split (p ∷ part) missing (x ∷ xs) ys e =
    elim (append_split part missing xs ys (cons_tail e)) [
      | inl (more, e1, e2) ↦ inl (more, ap₂ ◌∷◌ (cons_head e) e1, e2)
      | inr (tail, h, e1, e2) ↦ inr (tail, h, ap₂ ◌∷◌ (sym (cons_head e)) e1, e2)
    ]

pub IsDigits-front : (ds es : Text) → IsDigits (ds ++ es) → IsDigits ds
IsDigits-front [] es h = tt
IsDigits-front (d ∷ ds) es h = (h.0, h.1, IsDigits-front ds es h.2)

pub value_of-front : (acc : ℕ) (ds es : Text) → value_of acc ds ≤ value_of acc (ds ++ es)
unfolding value_of
value_of-front acc [] es = le-value_of acc es
value_of-front acc (d ∷ ds) es = value_of-front (acc * 10 + (d - 48)) ds es

-- Digits up to the end of the array are read as their number.
pub read_number_to_end :
    (wdata : WData) (index acc : ℕ) (ds rest : Text)
    → drop index wdata.bytes ≡ ds ++ rest
    → IsDigits ds
    → value_of acc ds + 48 ≤ int_max
    → read_number (length ds) wdata index (pos acc)
      ≡ some (pos (value_of acc ds), index + length ds)
unfolding read_number value_of
read_number_to_end wdata index acc [] rest at digits small = ground arith
read_number_to_end wdata index acc (d ∷ ds) rest at digits small = ground (
  arith,
  get_or_of_drop wdata.bytes index d (ds ++ rest) at,
  add_digit_lem acc d,
  le-value_of (acc * 10 + (d - 48)) ds,
  read_number_to_end wdata (index + 1) (acc * 10 + (d - 48)) ds rest
      (drop_next wdata.bytes index d _ at),
)

module _ {W J : Type 0} (os : Os W J) where
  -- The end of the array is in the digits of an item's length, or right behind them.
  cut_in_digits :
      (wdata : WData) (array_len index : ℕ) (key : ItemKey) (json : J) (item : Item)
      (ds more junk : Text)
      → IsItem item
      → length item.body ≤ max_len
      → ds ++ more ≡ item.digits
      → drop index wdata.bytes ≡ 36 ∷ (ds ++ junk)
      → index + 1 + length ds ≡ wdata.len
      → parse_item os wdata array_len key json index ≡ ok none
  unfolding parse_item
  cut_in_digits wdata array_len index key json item ds more junk v small front at ends =
      let rounds : wdata.len - (index + 1) ≡ length ds = omega arith in
      let digits_ok : IsDigits ds = IsDigits-front ds more (rw front v.numeral) in
      let value_ok : value_of 0 ds + 48 ≤ int_max =
        omega (arith, value_of-front 0 ds more, ap (value_of 0) front, v.counts) in
      let number =
        read_number_to_end wdata (index + 1) 0 ds junk (drop_next wdata.bytes index 36 _ at)
          digits_ok value_ok in
      ground (arith, get_or_of_drop wdata.bytes index 36 _ at, rounds, number)

  -- The length was read, and the item goes on behind the end.
  cut_behind_digits :
      (wdata : WData) (array_len index : ℕ) (key : ItemKey) (json : J) (item : Item) (rest : Text)
      → IsItem item
      → length item.body ≤ max_len
      → wdata.len ≤ max_len
      → drop index wdata.bytes ≡ 36 ∷ (item.digits ++ (13 ∷ rest))
      → index + 1 + length item.digits < wdata.len
      → wdata.len ≤ index + length (item_bytes item)
      → (wdata.len ≡ index + length (item_bytes item) → 1 < array_len)
      → parse_item os wdata array_len key json index ≡ ok none
  unfolding parse_item after_length behind_item runs_out
  cut_behind_digits wdata array_len index key json item rest v small short at inside beyond more =
      let number : number_from wdata (index + 1)
          ≡ some (pos (length item.body), index + 1 + length item.digits) =
        rw (← v.counts) (
          read_number_lem (wdata.len - (index + 1)) wdata (index + 1) 0 item.digits _
            (drop_next wdata.bytes index 36 _ at) v.numeral (omega (arith, v.counts))
            (omega arith)) in
      ground (arith, get_or_of_drop wdata.bytes index 36 _ at, number, length-item_bytes item, more)

  module _ (wdata : WData) (array_len index : ℕ) (key : ItemKey) (json : J) (item : Item)
      (missing junk ys : Text) (v : IsItem item) (small : length item.body ≤ max_len)
      (short : wdata.len ≤ max_len) where
    -- Nothing is taken of an item that ends behind the array, or with it where more must follow.
    pub parse_item-cut :
        (part : Text)
        → drop index wdata.bytes ≡ part ++ junk
        → part ++ missing ≡ item_bytes item ++ ys
        → 0 < length part
        → index + length part ≡ wdata.len
        → length part ≤ length (item_bytes item)
        → (length part ≡ length (item_bytes item) → 1 < array_len)
        → parse_item os wdata array_len key json index ≡ ok none
    unfolding item_bytes
    parse_item-cut part at cut some_bytes ends before more =
        elim (append_split part missing (36 ∷ item.digits)
          (13 ∷ 10 ∷ (item.body ++ ((13 ∷ 10 ∷ []) ++ ys))) (cut ∙ split_item)) [
            | inl (behind, e, e') ↦ past_digits behind e e'
            | inr (tail, h, e, e') ↦ in_digits part tail at some_bytes ends e
          ]
      where
        split_item :
            item_bytes item ++ ys
            ≡ (36 ∷ item.digits) ++ (13 ∷ 10 ∷ (item.body ++ ((13 ∷ 10 ∷ []) ++ ys)))
        split_item = simp append_assoc

        in_digits :
            (front tail : Text)
            → drop index wdata.bytes ≡ front ++ junk
            → 0 < length front
            → index + length front ≡ wdata.len
            → 36 ∷ item.digits ≡ front ++ tail
            → parse_item os wdata array_len key json index ≡ ok none
        in_digits [] tail at some_bytes ends e = absurd (omega arith)
        in_digits (c ∷ ds) tail at some_bytes ends e =
            cut_in_digits wdata array_len index key json item ds tail junk v small
              (sym (cons_tail e)) (at ∙ ap (λ x. x ∷ (ds ++ junk)) (sym (cons_head e)))
              (omega (arith, ends))

        past_digits :
            (behind : Text)
            → part ≡ (36 ∷ item.digits) ++ behind
            → behind ++ missing ≡ 13 ∷ 10 ∷ (item.body ++ ((13 ∷ 10 ∷ []) ++ ys))
            → parse_item os wdata array_len key json index ≡ ok none
        past_digits [] e e' =
            cut_in_digits wdata array_len index key json item item.digits [] junk v small
              (append-nil item.digits)
              (at ∙ ap (λ l. l ++ junk) e ∙ ap (λ l. 36 ∷ (l ++ junk)) (append-nil item.digits))
              (omega (arith, ends, ap length e, length-append item.digits []))
        past_digits (c ∷ behind) e e' =
            let size = ap length e in
            let sizes = length-append item.digits (c ∷ behind) in
            cut_behind_digits wdata array_len index key json item (behind ++ junk) v small short
              (at
                ∙ ap (λ l. l ++ junk) e
                ∙ ap (λ l. 36 ∷ l) (append_assoc item.digits (c ∷ behind) junk)
                ∙ ap (λ x. 36 ∷ (item.digits ++ (x ∷ (behind ++ junk)))) (cons_head e'))
              (omega (arith, ends, size, sizes)) (omega (arith, ends, before))
              (λ h. more (omega (arith, h, ends)))
