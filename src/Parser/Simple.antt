-- ===== src/Parser/Simple.antt =====
-- A line of the slave's answer, as `parseSimple` of proxy/parser.c takes it.
use lrued_redis_storage_iceb.Prelude.{
  ℕ, zero, suc, ◌+◌, ◌-◌, ◌≤◌, ◌<◌, ◌≡◌, ◌≢◌, some, [], ◌∷◌, ◌++◌, arith, length, drop, ltb,
  if◌then◌else◌, ◌∙◌, ap,
}
use lrued_redis_storage_iceb.State.{Text, WData, Os, Globals, ◌>>◌, pure}
use lrued_redis_storage_iceb.Parser.{byte_at, find_newline, drop_key, parse_simple}
use lrued_redis_storage_iceb.Parser.Number.{get_or_of_drop, drop_next}

abbrev pub NoNewline : Text → Type 0
NoNewline [] = Unit {0}
NoNewline (c ∷ line) = (c ≢ 10) × NoNewline line

module _ {W J : Type 0} (os : Os W J) where
  find_newline_lem :
      (line : Text) (rounds index : ℕ) (wdata : WData) (rest : Text)
      → drop index wdata.bytes ≡ line ++ (10 ∷ rest)
      → NoNewline line
      → length line < rounds
      → find_newline os rounds wdata index ≡ some (index + length line)
  unfolding find_newline
  find_newline_lem line zero index wdata rest at v h = absurd (omega arith)
  find_newline_lem [] (suc rounds) index wdata rest at v h =
      ground (arith, get_or_of_drop wdata.bytes index 10 _ at)
  find_newline_lem (c ∷ line) (suc rounds) index wdata rest at v h = ground (
    arith,
    get_or_of_drop wdata.bytes index c _ at,
    v.0,
    find_newline_lem line rounds (index + 1) wdata rest (drop_next wdata.bytes index c _ at) v.1
        (omega arith),
  )

  newline_here :
      (line : Text) (index : ℕ) (wdata : WData) (rest : Text)
      → drop index wdata.bytes ≡ line ++ (10 ∷ rest)
      → byte_at wdata (index + length line) ≡ 10
  newline_here [] index wdata rest at = ground (arith, get_or_of_drop wdata.bytes index 10 _ at)
  newline_here (c ∷ line) index wdata rest at =
      ap (byte_at wdata) (omega arith)
      ∙ newline_here line (index + 1) wdata rest (drop_next wdata.bytes index c _ at)

  -- A whole line takes a key from the queue if it has more than five characters before its newline
  -- and none otherwise, whatever its first character is: an error is not told from a status.
  pub parse_simple-line :
      (c : ℕ) (line : Text) (start : ℕ) (wdata : WData) (rest : Text) (g : Globals W)
      → drop start wdata.bytes ≡ c ∷ (line ++ (10 ∷ rest))
      → NoNewline line
      → start + length line + 2 ≤ wdata.len
      → parse_simple os wdata start g
        ≡ (if ltb 5 (length line + 1)
              then (drop_key os >> pure (some (start + length line + 2)))
              else pure (some (start + length line + 2)))
            g
  unfolding parse_simple
  parse_simple-line c line start wdata rest g at v h =
      let next = drop_next wdata.bytes start c _ at in
      ground (
        arith,
        find_newline_lem line (wdata.len - (start + 1)) (start + 1) wdata rest next v (omega arith),
        newline_here line (start + 1) wdata rest next,
      )
