-- ===== src/Parser.antt =====
-- proxy/parser.c: the answers of the slave to the proxy's queries, and what becomes of each.
-- Functions over the received bytes return the index that the C function returns, with `none` for
-- -1. `int` sums that overflow or go below zero where they index are `undefined`.
pub mod Ends
pub mod Loop
pub mod Number
pub mod Reply
pub mod Answers
pub mod Simple
pub mod Cut
pub mod CutAnswer
pub mod Incomplete
pub mod Fronts
pub mod Kept
pub mod Blind
pub mod Stream
use lrued_redis_storage_iceb.Prelude.{
  ℕ, zero, suc, ◌+◌, ◌-◌, ◌*◌, ◌%◌, ◌^◌, Bool, true, false, ◌||◌, ◌&&◌, not, Option, none, some,
  List, [], ◌∷◌, ◌++◌, ◌==◌, ltb, leb, if◌then◌else◌, length, drop, take, get_or, strncpy, c_str,
}
use lrued_redis_storage_iceb.Prelude.Int.{ℤ, pos, negsuc, pos_part, neg_part, sub_ℕ}
use lrued_redis_storage_iceb.CirQueue.{que_size, pop_cir_queue}
use lrued_redis_storage_iceb.State.{
  Text, WData, Os, Globals, Run, ok, exits, undefined, hangs, M, pure, ◌>>=◌, ◌>>◌, fails, gets,
  modify, on_queue, max_read,
}
use lrued_redis_storage_iceb.Store.{Payload, object, characters, save_value}

abbrev pub cr : ℕ
cr = 13

abbrev pub lf : ℕ
lf = 10

abbrev pub int_max : ℕ
int_max = 2 ^ 31 - 1

-- `data[index]`. A read behind the array gives 0: the loops that make one stop there by
-- `index < len` whatever it gives.
abbrev pub byte_at : WData → ℕ → ℕ
byte_at wdata index = get_or wdata.bytes index 0

-- `saveToBuf`: from `start` on, if less than MAX_READ bytes are left.
unfoldable pub save_to_buf : WData → ℕ → WData → WData
save_to_buf wdata start buf =
    let len = wdata.len - start in
    if ltb len max_read
    then record { len = len; bytes = strncpy len (drop start wdata.bytes) ++ drop len buf.bytes }
    else record buf { len = 0 }

abbrev pub in_int : ℤ → Bool
in_int (pos n) = leb n int_max
in_int (negsuc n) = leb n int_max

-- `n * 10 + c - '0'` in `int`, for a `char` that is signed; `none` where a part of it overflows.
unfoldable pub add_digit : ℤ → ℕ → Option ℤ
add_digit n c =
    let sign = if ltb c 128 then 0 else 256 in
    let tens = sub_ℕ (pos_part n * 10) (neg_part n * 10) in
    let added = sub_ℕ (pos_part n * 10 + c) (neg_part n * 10 + sign) in
    let r = sub_ℕ (pos_part n * 10 + c) (neg_part n * 10 + sign + 48) in
    if in_int tens && (in_int added && in_int r) then some r else none

-- `while(data[index] != '\r' && index < len)` over the digits of a number: the rounds left are
-- `len - index`. The number and the index behind it; `none` on overflow.
unfoldable pub read_number : ℕ → WData → ℕ → ℤ → Option (ℤ × ℕ)
read_number zero wdata index n = some (n, index)
read_number (suc rounds) wdata index n = elim (byte_at wdata index == cr) [
  | true ↦ some (n, index)
  | false ↦ elim (add_digit n (byte_at wdata index)) [
    | none ↦ none
    | some n' ↦ read_number rounds wdata (index + 1) n'
  ]
]

abbrev pub number_from : WData → ℕ → Option (ℤ × ℕ)
number_from wdata index = read_number (wdata.len - index) wdata index (pos 0)

-- `item_key` of `parseArray`, which is a local without initial value, and freed after each pair.
pub data ItemKey : Type 0 where
  invalid : ItemKey
  allocated : Text → ItemKey

-- `index + item_len + 4` for an `int item_len`: `none` on overflow, `some none` below 0.
unfoldable pub behind_item : ℕ → ℤ → Option (Option ℕ)
behind_item index (pos n) =
    if leb (index + n + 4) int_max then some (some (index + n + 4)) else none
behind_item index (negsuc n) =
    some (if leb (n + 1) (index + 4) then some (index + 4 - (n + 1)) else none)

-- `index > len || (index == len && array_len > 1)`, for an index that may be below 0
unfoldable pub runs_out : WData → ℕ → Option ℕ → Bool
runs_out wdata array_len none = false
runs_out wdata array_len (some next) = ltb wdata.len next || (next == wdata.len && ltb 1 array_len)

module _ {W J : Type 0} (os : Os W J) where
  -- `saveToBuf(wdata, start, &buf_slave_answer); return -1;`
  unfoldable pub incomplete : WData → ℕ → M W (Option ℕ)
  incomplete wdata start g =
      ok (none, record g { buf_slave_answer = save_to_buf wdata start g.buf_slave_answer })

  unfoldable pub pop_handle : Payload J → M W (Unit {0})
  pop_handle payload = do
    e ← on_queue pop_cir_queue
    elim e [ none ↦ fails exits | some key ↦ (save_value os payload key >>= λ _. pure tt) ]

  -- What `parseArray` does with the item of `n` bytes at `item_start`, at `array_len` items left.
  unfoldable pub take_item : WData → ℕ → ℕ → ℕ → ItemKey → J → Run (ItemKey × J)
  take_item wdata array_len item_start zero key json = ok (key, json)
  take_item wdata array_len item_start (suc n) key json =
      let item = strncpy (suc n) (drop item_start wdata.bytes) in
      if array_len % 2 == 0 then ok (allocated item, json) else elim key [
        | invalid ↦ undefined
        | allocated k ↦ ok (invalid, os.json_object_set json (c_str k) (c_str item))
      ]

  -- An item whose length `int item_len` was read up to the `\r` at `index`. The result is the index
  -- of the next item, with `some (none, …)` for one below 0.
  unfoldable pub after_length :
      WData → ℕ → ItemKey → J → ℕ → ℤ → Run (Option (Option ℕ × ItemKey × J))
  after_length wdata array_len key json index item_len = elim (behind_item index item_len) [
    | none ↦ undefined
    | some next ↦
        if runs_out wdata array_len next
        then ok none
        else elim (take_item wdata array_len (index + 2) (pos_part item_len) key json) [
          | ok (key', json') ↦ ok (some (next, key', json'))
          | exits ↦ exits
          | undefined ↦ undefined
          | hangs ↦ hangs
        ]
  ]

  -- One round of `while(array_len > 0)`: `none` where the item is incomplete.
  unfoldable pub parse_item : WData → ℕ → ItemKey → J → ℕ → Run (Option (Option ℕ × ItemKey × J))
  parse_item wdata array_len key json index =
      if not (byte_at wdata index == 36)
      then exits
      else if leb wdata.len (index + 1)
      then ok none
      else elim (number_from wdata (index + 1)) [
        | none ↦ undefined
        | some (item_len, behind) ↦
            if leb wdata.len behind
            then ok none
            else after_length wdata array_len key json behind item_len
      ]

  -- An item at an index below 0 is read in front of the array.
  unfoldable pub parse_items : WData → ℕ → ItemKey → J → Option ℕ → Run (Option (Option ℕ × J))
  parse_items wdata zero key json index = ok (some (index, json))
  parse_items wdata (suc array_len) key json none = undefined
  parse_items wdata (suc array_len) key json (some index) =
      elim (parse_item wdata (suc array_len) key json index) [
        | ok none ↦ ok none
        | ok (some (next, key', json')) ↦ parse_items wdata array_len key' json' next
        | exits ↦ exits
        | undefined ↦ undefined
        | hangs ↦ hangs
      ]

  -- The end of `parseArray`, with the result of its loop.
  unfoldable pub finish_array : WData → ℕ → Run (Option (Option ℕ × J)) → M W (Option ℕ)
  finish_array wdata start (ok none) = incomplete wdata start
  finish_array wdata start (ok (some (index, j))) = pop_handle (object j) >> pure index
  finish_array wdata start exits = fails exits
  finish_array wdata start undefined = fails undefined
  finish_array wdata start hangs = fails hangs

  unfoldable pub parse_array : WData → ℕ → M W (Option ℕ)
  parse_array wdata start =
      if leb wdata.len (start + 1)
      then incomplete wdata start
      else elim (number_from wdata (start + 1)) [
        | none ↦ fails undefined
        | some (array_len, behind) ↦
            if leb wdata.len behind
              || (ltb wdata.len (behind + 2)
                  || (behind + 2 == wdata.len && ltb 0 (pos_part array_len)))
            then incomplete wdata start
            else finish_array wdata start
                (parse_items wdata (pos_part array_len) invalid os.json_object (some (behind + 2)))
      ]

  -- A negative `item_len` makes the copy write behind what `calloc` gave, or to NULL.
  unfoldable pub bulk_body : WData → ℕ → ℕ → ℤ → M W (Option ℕ)
  bulk_body wdata start index (negsuc n) = fails undefined
  bulk_body wdata start index (pos item_len) =
      if ltb int_max (index + item_len + 4)
      then fails undefined
      else if ltb wdata.len (index + item_len + 4)
      then incomplete wdata start
      else (pop_handle (characters (strncpy item_len (drop (index + 2) wdata.bytes)))
          >> pure (some (index + item_len + 4)))

  unfoldable pub parse_bulk_string : WData → ℕ → M W (Option ℕ)
  unfolding bulk_body
  parse_bulk_string wdata start = elim (number_from wdata (start + 1)) [
    | none ↦ fails undefined
    | some (item_len, behind) ↦
        if leb wdata.len behind
        then incomplete wdata start
        else bulk_body wdata start behind item_len
  ]

  -- `while(index < len)` up to a newline: the index of the newline.
  unfoldable pub find_newline : ℕ → WData → ℕ → Option ℕ
  find_newline zero wdata index = none
  find_newline (suc rounds) wdata index =
      if byte_at wdata index == lf then some index else find_newline rounds wdata (index + 1)

  -- `e = pop_cir_queue(&q)`, which is only logged.
  unfoldable pub drop_key : M W (Unit {0})
  drop_key = on_queue pop_cir_queue >>= λ _. pure tt

  -- The test for an error looks at the newline itself, not at the first character.
  unfoldable pub parse_simple : WData → ℕ → M W (Option ℕ)
  unfolding find_newline drop_key
  parse_simple wdata start = elim (find_newline (wdata.len - (start + 1)) wdata (start + 1)) [
    | none ↦ incomplete wdata start
    | some index ↦
        if byte_at wdata index == 45
        then (drop_key >> pure (some (index + 1)))
        else if ltb 5 (index - start)
        then (drop_key >> pure (some (index + 1)))
        else pure (some (index + 1))
  ]

  -- The answer that begins at `index`, by its first character; `some none` is `break`.
  unfoldable pub parse_one : WData → ℕ → M W (Option ℕ)
  parse_one wdata index =
      let c = byte_at wdata index in
      if c == 42
      then parse_array wdata index
      else if c == 36
      then parse_bulk_string wdata index
      else if c == 45 || (c == 43 || c == 58)
      then parse_simple wdata index
      else pure none

  -- How the loop of `parseReadData` goes on after an answer: at its index, unless that is below 0.
  unfoldable pub go_on :
      Run (Option ℕ × Globals W) → (ℕ → M W (Unit {0})) → Run (Unit {0} × Globals W)
  go_on (ok (none, g)) rest = ok (tt, g)
  go_on (ok (some index, g)) rest = rest index g
  go_on exits rest = exits
  go_on undefined rest = undefined
  go_on hangs rest = hangs

  -- `while(index >= 0 && index < processData->len)`. An answer ends behind its start unless its
  -- length is negative, and an array whose item has such a length takes a key from the queue: so
  -- many rounds serve as `parse_read_data` gives.
  unfoldable pub parse_loop : ℕ → WData → ℕ → M W (Unit {0})
  parse_loop zero wdata index g = hangs
  parse_loop (suc rounds) wdata index g = elim (ltb index wdata.len) [
    | false ↦ ok (tt, g)
    | true ↦ go_on (parse_one wdata index g) (parse_loop rounds wdata)
  ]

-- What is kept of the last read in front of what came now.
unfoldable pub merged : WData → WData → WData
merged buf wdata =
    if ltb 0 buf.len && ltb (buf.len + wdata.len) (max_read * 2)
    then record {
      len = buf.len + wdata.len;
      bytes = strncpy buf.len buf.bytes ++ strncpy wdata.len wdata.bytes;
    }
    else wdata

module _ {W J : Type 0} (os : Os W J) where
  unfoldable pub parse_read_data : WData → M W (Unit {0})
  parse_read_data wdata = do
    buf ← gets (λ g. g.buf_slave_answer)
    modify (λ g. record g { buf_slave_answer = record (g.buf_slave_answer) { len = 0 } })
    parse_loop os (suc (merged buf wdata).len * (que_size + 1)) (merged buf wdata) 0
