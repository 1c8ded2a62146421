-- ===== src/Parser/CutAnswer.antt =====
-- Nothing of an answer that is cut off is taken by `parseArray` of proxy/parser.c.
use lrued_redis_storage_iceb.Prelude.{
  ℕ, zero, suc, ◌+◌, ◌*◌, ◌%◌, ◌≤◌, ◌<◌, ◌≡◌, ◌⊎◌, inl, inr, some, none, List, [], ◌∷◌, ◌++◌, arith,
  length, drop, ◌∙◌, ap, length-append, append_assoc,
}
use lrued_redis_storage_iceb.State.{Text, WData, Os, ok}
use lrued_redis_storage_iceb.Parser.{ItemKey, invalid, allocated, parse_item, parse_items}
use lrued_redis_storage_iceb.Parser.Number.{drop_past}
use lrued_redis_storage_iceb.Parser.Reply.{
  item_bytes, length-item_bytes, max_len, Field, IsField, AllFields, fields_bytes, take_key,
  take_value, parse_item_lem, body_of_item,
}
use lrued_redis_storage_iceb.Parser.Cut.{append_split, parse_item-cut}

-- The second cut is not before the first, or something is left between them.
pub append_cut :
    (part missing xs ys : Text)
    → part ++ missing ≡ xs ++ ys
    → (length part ≤ length xs)
      ⊎ ((more : Text) × (0 < length more) × (part ≡ xs ++ more) × (more ++ missing ≡ ys))
append_cut part missing xs ys e = elim (append_split part missing xs ys e) [
  | inl ([], e1, e2) ↦ inl (omega (arith, ap length e1, length-append xs []))
  | inl (c ∷ more, e1, e2) ↦ inr (c ∷ more, omega arith, e1, e2)
  | inr (tail, h, e1, e2) ↦ inl (omega (arith, ap length e1, length-append part tail))
]

pub fields_some : (fs : List Field) → 0 < length (fields_bytes fs) → 0 < length fs
unfolding fields_bytes
fields_some [] h = h
fields_some (f ∷ fs) h = omega arith

module _ {W J : Type 0} (os : Os W J) where
  stopped :
      (wdata : WData) (k i : ℕ) (key : ItemKey) (j : J)
      → parse_item os wdata (suc k) key j i ≡ ok none
      → parse_items os wdata (suc k) key j (some i) ≡ ok none
  unfolding parse_items
  stopped wdata k i key j r = ground (arith, r)

  going :
      (wdata : WData) (k i next : ℕ) (key key' : ItemKey) (j j' : J)
      → parse_item os wdata (suc k) key j i ≡ ok (some (some next, key', j'))
      → parse_items os wdata (suc k) key j (some i) ≡ parse_items os wdata k key' j' (some next)
  unfolding parse_items
  going wdata k i next key key' j j' r = ground (arith, r)

  module _ (wdata : WData) (short : wdata.len ≤ max_len) (missing junk : Text)
      (left : 0 < length missing) where
    -- A name that was read whole, before its value or with a part of it.
    name_read :
        (f : Field) (k index : ℕ) (json : J) (p : Text)
        → IsField f
        → k % 2 ≡ 1
        → drop index wdata.bytes ≡ item_bytes f.name ++ (p ++ junk)
        → 0 < length p
        → index + length (item_bytes f.name) + length p ≡ wdata.len
        → parse_items os wdata (suc k) invalid json (some index)
          ≡ parse_items os wdata k
              (allocated f.name.body)
              json
              (some (index + length (item_bytes f.name)))
    name_read f k index json p v odd at h ends = going wdata k index _ invalid _ json json (
        parse_item_lem os wdata (suc k) index invalid json f.name (p ++ junk) v.name_ok short at
          (omega arith) (λ _. omega arith)
          (take_key os wdata (suc k) _ f.name.body invalid json _ v.name_ok.not_empty
            v.name_ok.no_nul (omega arith) (body_of_item os wdata index f.name _ at)))

    value_read :
        (f : Field) (k index : ℕ) (json : J) (p : Text)
        → IsField f
        → k % 2 ≡ 0
        → drop index wdata.bytes ≡ item_bytes f.content ++ (p ++ junk)
        → 0 < length p
        → index + length (item_bytes f.content) + length p ≡ wdata.len
        → parse_items os wdata (suc k) (allocated f.name.body) json (some index)
          ≡ parse_items os wdata k invalid
              (os.json_object_set json f.name.body f.content.body)
              (some (index + length (item_bytes f.content)))
    value_read f k index json p v even at h ends = going wdata k index _ _ invalid json _ (
        parse_item_lem os wdata (suc k) index _ json f.content (p ++ junk) v.content_ok short at
          (omega arith) (λ _. omega arith)
          (take_value os wdata (suc k) _ f.content.body f.name.body json _ v.content_ok.not_empty
            v.content_ok.no_nul v.name_ok.no_nul (omega arith)
            (body_of_item os wdata index f.content _ at)))

    -- The end of the array is in a value, or behind it where more must follow.
    in_value :
        (f : Field) (fs : List Field) (m : ℕ) (p : Text) (next : ℕ) (json : J)
        → IsField f
        → length (item_bytes f.content) ≤ max_len
        → m ≡ 2 * length fs
        → 0 < length p
        → drop next wdata.bytes ≡ p ++ junk
        → next + length p ≡ wdata.len
        → p ++ missing ≡ item_bytes f.content ++ fields_bytes fs
        → ((q : Text) (i : ℕ) (j : J)
            → drop i wdata.bytes ≡ q ++ junk
            → q ++ missing ≡ fields_bytes fs
            → 0 < length q
            → i + length q ≡ wdata.len
            → parse_items os wdata m invalid j (some i) ≡ ok none)
        → parse_items os wdata (suc m) (allocated f.name.body) json (some next) ≡ ok none
    in_value f fs m p next json v small e h at ends cut further =
        let content = item_bytes f.content in
        elim (append_cut p missing content (fields_bytes fs) cut) [
          | inl before ↦ stopped wdata m next _ json (
              parse_item-cut os wdata (suc m) next _ json f.content missing junk _ v.content_ok
                (omega (arith, length-item_bytes f.content)) short p at cut h ends before
                (λ same. omega (
                  arith,
                  fields_some fs (
                      omega (
                        arith,
                        ap length cut,
                        length-append p missing,
                        length-append content (fields_bytes fs),
                      )),
                )))
          | inr (q, h', e1, e2) ↦
              let at_value = at ∙ ap (λ l. l ++ junk) e1 ∙ append_assoc content q junk in
              let ends' : next + length content + length q ≡ wdata.len =
                omega (arith, ends, ap length e1, length-append content q) in
              value_read f m next json q v (omega arith) at_value h' ends'
              ∙ further q (next + length content) _ (drop_past wdata.bytes next content _ at_value)
                  e2 h' ends'
        ]

    -- Fields that are cut off before their end are incomplete, wherever the cut is.
    pub parse_items-cut :
        (fs : List Field) (part : Text) (index : ℕ) (json : J) (n : ℕ)
        → AllFields fs
        → length (fields_bytes fs) ≤ max_len
        → drop index wdata.bytes ≡ part ++ junk
        → part ++ missing ≡ fields_bytes fs
        → 0 < length part
        → index + length part ≡ wdata.len
        → n ≡ 2 * length fs
        → parse_items os wdata n invalid json (some index) ≡ ok none
    unfolding fields_bytes
    parse_items-cut [] part index json n v small at cut some_bytes ends e =
        absurd (omega (arith, ap length cut, length-append part missing))
    parse_items-cut (f ∷ fs) part index json zero v small at cut some_bytes ends e =
        absurd (omega arith)
    parse_items-cut (f ∷ fs) part index json (suc zero) v small at cut some_bytes ends e =
        absurd (omega arith)
    parse_items-cut (f ∷ fs) part index json (suc (suc m)) v small at cut some_bytes ends e =
        let name = item_bytes f.name in
        let content = item_bytes f.content in
        let sizes = length-append name (content ++ fields_bytes fs) in
        let sizes' = length-append content (fields_bytes fs) in
        elim (append_cut part missing name (content ++ fields_bytes fs) cut) [
          | inl before ↦ stopped wdata (suc m) index invalid json (
              parse_item-cut os wdata (suc (suc m)) index invalid json f.name missing junk _
                v.0.name_ok (omega (arith, sizes, sizes', length-item_bytes f.name)) short part at
                cut some_bytes ends before (λ _. omega arith))
          | inr (p, h, e1, e2) ↦
              let at_name = at ∙ ap (λ l. l ++ junk) e1 ∙ append_assoc name p junk in
              let next = index + length name in
              let ends' : next + length p ≡ wdata.len =
                omega (arith, ends, ap length e1, length-append name p) in
              name_read f (suc m) index json p v.0 (omega arith) at_name h ends'
              ∙ in_value f fs m p next json v.0 (omega (arith, sizes, sizes')) (omega arith) h
                  (drop_past wdata.bytes index name _ at_name) ends' e2
                  (λ q i j at' cut' h' ends''.
                    parse_items-cut fs q i j m v.1 (omega (arith, sizes, sizes')) at' cut' h' ends''
                      (omega arith))
        ]
