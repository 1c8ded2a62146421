-- ===== src/Parser/Reply.antt =====
-- The slave's answers to HGETALL as proxy/parser.c meets them: an array of fields and values.
use lrued_redis_storage_iceb.Prelude.{
  ℕ, zero, suc, ◌+◌, ◌-◌, ◌*◌, ◌%◌, ◌≤◌, ◌<◌, ◌≡◌, some, List, [], ◌∷◌, ◌++◌, arith, length, drop,
  ◌∙◌, ap, length-append, append_assoc,
}
use lrued_redis_storage_iceb.Prelude.Int.{pos}
use lrued_redis_storage_iceb.State.{Text, WData, Os, ok}
use lrued_redis_storage_iceb.Parser.{
  byte_at, number_from, ItemKey, invalid, allocated, behind_item, runs_out, take_item, after_length,
  parse_item, parse_items,
}
use lrued_redis_storage_iceb.Parser.Number.{
  get_or_of_drop, drop_next, drop_past, IsDigits, value_of, read_number_lem, NoNul, strncpy_whole,
  c_str_whole,
}

-- A bulk string with the digits of its length.
pub record Item : Type 0 where
  pub digits : Text
  pub body : Text

-- Its length is right, it is not empty, and it has no NUL.
pub record IsItem (item : Item) : Type 0 where
  pub numeral : IsDigits item.digits
  pub counts : value_of 0 item.digits ≡ length item.body
  pub not_empty : 0 < length item.body
  pub no_nul : NoNul item.body

-- `$<digits>\r\n<body>\r\n`
unfoldable pub item_bytes : Item → Text
item_bytes item = 36 ∷ (item.digits ++ (13 ∷ 10 ∷ (item.body ++ (13 ∷ 10 ∷ []))))

pub length-item_bytes :
    (item : Item) → length (item_bytes item) ≡ length item.digits + length item.body + 5
unfolding item_bytes
length-item_bytes item = omega (
  arith,
  length-append item.digits (13 ∷ 10 ∷ (item.body ++ (13 ∷ 10 ∷ []))),
  length-append item.body (13 ∷ 10 ∷ []),
)

-- No array that the proxy reads is longer.
abbrev pub max_len : ℕ
max_len = 20480

module _ {W J : Type 0} (os : Os W J) where
  -- At an even number of items left a key is kept.
  pub take_key :
      (wdata : WData) (array_len at : ℕ) (body : Text) (key : ItemKey) (json : J) (rest : List ℕ)
      → 0 < length body
      → NoNul body
      → array_len % 2 ≡ 0
      → drop at wdata.bytes ≡ body ++ rest
      → take_item os wdata array_len at (length body) key json ≡ ok (allocated body, json)
  unfolding take_item
  take_key wdata array_len at [] key json rest full clean even h = absurd (omega arith)
  take_key wdata array_len at (c ∷ cs) key json rest full clean even h =
      rw (h, strncpy_whole (c ∷ cs) rest clean, even)

  -- At an odd number a value is set under the key that was kept, which is freed.
  pub take_value :
      (wdata : WData) (array_len at : ℕ) (body k : Text) (json : J) (rest : List ℕ)
      → 0 < length body
      → NoNul body
      → NoNul k
      → array_len % 2 ≡ 1
      → drop at wdata.bytes ≡ body ++ rest
      → take_item os wdata array_len at (length body) (allocated k) json
        ≡ ok (invalid, os.json_object_set json k body)
  unfolding take_item
  take_value wdata array_len at [] k json rest full clean named odd h = absurd (omega arith)
  take_value wdata array_len at (c ∷ cs) k json rest full clean named odd h =
      rw
        (h, strncpy_whole (c ∷ cs) rest clean, odd, c_str_whole k named, c_str_whole (c ∷ cs) clean)

  -- The index behind an item, and what was taken from it.
  after_length_lem :
      (wdata : WData) (array_len behind n : ℕ) (key key' : ItemKey) (json json' : J)
      → wdata.len ≤ max_len
      → behind + n + 4 ≤ wdata.len
      → (1 < array_len → behind + n + 4 < wdata.len)
      → take_item os wdata array_len (behind + 2) n key json ≡ ok (key', json')
      → after_length os wdata array_len key json behind (pos n)
        ≡ ok (some (some (behind + n + 4), key', json'))
  unfolding after_length behind_item runs_out
  after_length_lem wdata array_len behind n key key' json json' short whole more taken =
      ground (arith, taken)

  first_of_item :
      (wdata : WData) (index : ℕ) (item : Item) (rest : List ℕ)
      → drop index wdata.bytes ≡ item_bytes item ++ rest
      → byte_at wdata index ≡ 36
  unfolding item_bytes
  first_of_item wdata index item rest at = get_or_of_drop wdata.bytes index 36 _ at

  pub body_of_item :
      (wdata : WData) (index : ℕ) (item : Item) (rest : List ℕ)
      → drop index wdata.bytes ≡ item_bytes item ++ rest
      → drop (index + 1 + length item.digits + 2) wdata.bytes
        ≡ item.body ++ ((13 ∷ 10 ∷ []) ++ rest)
  unfolding item_bytes
  body_of_item wdata index item rest at =
      let digits_on =
        drop_next wdata.bytes index 36 _ at
        ∙ append_assoc item.digits (13 ∷ 10 ∷ (item.body ++ (13 ∷ 10 ∷ []))) rest in
      let newline_on = drop_past wdata.bytes (index + 1) item.digits _ digits_on in
      drop_past wdata.bytes (index + 1 + length item.digits) (13 ∷ 10 ∷ []) _ newline_on
      ∙ append_assoc item.body (13 ∷ 10 ∷ []) rest

  number_of_item :
      (wdata : WData) (index : ℕ) (item : Item) (rest : List ℕ)
      → IsItem item
      → wdata.len ≤ max_len
      → drop index wdata.bytes ≡ item_bytes item ++ rest
      → index + length (item_bytes item) ≤ wdata.len
      → number_from wdata (index + 1)
        ≡ some (pos (length item.body), index + 1 + length item.digits)
  unfolding item_bytes
  number_of_item wdata index item rest v short at whole = rw (← v.counts) (
      read_number_lem (wdata.len - (index + 1)) wdata (index + 1) 0 item.digits _
        (drop_next wdata.bytes index 36 _ at
          ∙ append_assoc item.digits (13 ∷ 10 ∷ (item.body ++ (13 ∷ 10 ∷ []))) rest)
        v.numeral (omega (arith, v.counts, length-item_bytes item))
        (omega (arith, length-item_bytes item)))

  module _ (wdata : WData) (array_len index : ℕ) (key : ItemKey) (json : J) (item : Item)
      (rest : List ℕ) where
    -- A whole item is read up to the byte behind it.
    pub parse_item_lem :
        {key' : ItemKey} {json' : J}
        → IsItem item
        → wdata.len ≤ max_len
        → drop index wdata.bytes ≡ item_bytes item ++ rest
        → index + length (item_bytes item) ≤ wdata.len
        → (1 < array_len → index + length (item_bytes item) < wdata.len)
        → take_item os wdata array_len
            (index + 1 + length item.digits + 2)
            (length item.body)
            key
            json
          ≡ ok (key', json')
        → parse_item os wdata array_len key json index
          ≡ ok (some (some (index + length (item_bytes item)), key', json'))
    unfolding parse_item
    parse_item_lem {key'} {json'} v short at whole more taken = ground (
      arith,
      first_of_item wdata index item rest at,
      number_of_item wdata index item rest v short at whole,
      length-item_bytes item,
      after_length_lem wdata array_len (index + 1 + length item.digits) (length item.body) key key'
          json json' short,
    )

-- A field of the hash, and its value.
pub record Field : Type 0 where
  pub name : Item
  pub content : Item

pub record IsField (f : Field) : Type 0 where
  pub name_ok : IsItem f.name
  pub content_ok : IsItem f.content

abbrev pub AllFields : List Field → Type 0
AllFields [] = Unit {0}
AllFields (f ∷ fs) = IsField f × AllFields fs

unfoldable pub fields_bytes : List Field → Text
fields_bytes [] = []
fields_bytes (f ∷ fs) = item_bytes f.name ++ (item_bytes f.content ++ fields_bytes fs)

module _ {W J : Type 0} (os : Os W J) where
  -- The object with the fields set in the order of the answer.
  unfoldable pub set_fields : J → List Field → J
  set_fields json [] = json
  set_fields json (f ∷ fs) = set_fields (os.json_object_set json f.name.body f.content.body) fs

  fields_pos :
      (fs : List Field) {n : ℕ}
      → 0 < n
      → suc (suc n) ≡ 2 * suc (length fs)
      → 0 < length (fields_bytes fs)
  unfolding fields_bytes
  fields_pos [] h e = absurd (omega arith)
  fields_pos (f ∷ fs) h e = omega (
    arith,
    length-item_bytes f.name,
    length-append (item_bytes f.name) (item_bytes f.content ++ fields_bytes fs),
  )

  -- A field is read: its name, then its value.
  pub parse_field :
      (wdata : WData) (f : Field) (n index : ℕ) (json : J) (rest : List ℕ)
      → IsField f
      → wdata.len ≤ max_len
      → n % 2 ≡ 0
      → drop index wdata.bytes ≡ item_bytes f.name ++ (item_bytes f.content ++ rest)
      → index + length (item_bytes f.name) + length (item_bytes f.content) ≤ wdata.len
      → (0 < n → index + length (item_bytes f.name) + length (item_bytes f.content) < wdata.len)
      → parse_items os wdata (suc (suc n)) invalid json (some index)
        ≡ parse_items os wdata n invalid
            (os.json_object_set json f.name.body f.content.body)
            (some (index + length (item_bytes f.name) + length (item_bytes f.content)))
  unfolding parse_items
  parse_field wdata f n index json rest v short even at whole more =
      let next = index + length (item_bytes f.name) in
      let name_ok = v.name_ok in
      let content_ok = v.content_ok in
      let at_content = drop_past wdata.bytes index (item_bytes f.name) _ at in
      let one =
        parse_item_lem os wdata (suc (suc n)) index invalid json f.name _ name_ok short at
          (omega arith) (λ _. omega (arith, length-item_bytes f.content))
          (take_key os wdata (suc (suc n)) _ f.name.body invalid json _ name_ok.not_empty
            name_ok.no_nul (omega arith) (body_of_item os wdata index f.name _ at)) in
      let two =
        parse_item_lem os wdata (suc n) next (allocated f.name.body) json f.content rest content_ok
          short at_content whole (λ h. more (omega arith))
          (take_value os wdata (suc n) _ f.content.body f.name.body json _ content_ok.not_empty
            content_ok.no_nul name_ok.no_nul (omega arith)
            (body_of_item os wdata next f.content rest at_content)) in
      ground (arith, one, two)

  pub parse_items_lem :
      (wdata : WData) (fs : List Field) (index : ℕ) (json : J) (rest : List ℕ) (n : ℕ)
      → AllFields fs
      → wdata.len ≤ max_len
      → drop index wdata.bytes ≡ fields_bytes fs ++ rest
      → index + length (fields_bytes fs) ≤ wdata.len
      → n ≡ 2 * length fs
      → parse_items os wdata n invalid json (some index)
        ≡ ok (some (some (index + length (fields_bytes fs)), set_fields json fs))
  unfolding fields_bytes set_fields
  parse_items_lem wdata [] index json rest zero v short at whole e =
      unfold parse_items in ground arith
  parse_items_lem wdata [] index json rest (suc n) v short at whole e = absurd (omega arith)
  parse_items_lem wdata (f ∷ fs) index json rest zero v short at whole e = absurd (omega arith)
  parse_items_lem wdata (f ∷ fs) index json rest (suc zero) v short at whole e =
      absurd (omega arith)
  parse_items_lem wdata (f ∷ fs) index json rest (suc (suc n)) v short at whole e =
      let name = item_bytes f.name in
      let content = item_bytes f.content in
      let at' =
        at
        ∙ append_assoc name (content ++ fields_bytes fs) rest
        ∙ ap (λ l. name ++ l) (append_assoc content (fields_bytes fs) rest) in
      let sizes = length-append name (content ++ fields_bytes fs) in
      let sizes' = length-append content (fields_bytes fs) in
      let next = index + length name + length content in
      parse_field wdata f n index json (fields_bytes fs ++ rest) v.0 short (omega arith) at'
        (omega (arith, sizes, sizes')) (λ h. omega (arith, sizes, sizes', fields_pos fs h e))
      ∙ parse_items_lem wdata fs next _ rest n v.1 short
          (drop_past wdata.bytes (index + length name) content _
            (drop_past wdata.bytes index name _ at'))
          (omega (arith, sizes, sizes')) (omega arith)
      ∙ ap
          (λ m.
            ok (some (some m, set_fields (os.json_object_set json f.name.body f.content.body) fs)))
          (omega (arith, sizes, sizes'))
