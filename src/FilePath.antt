-- ===== src/FilePath.antt =====
-- nginx/c/hash.c with nginx/c/myhash/myhash.c: the three directories that a key is stored under, as
-- the writer makes them and as the reader names them, and the route to a file server.
pub mod Agree
pub mod Levels
pub mod Query
pub mod Written
use lrued_redis_storage_iceb.Prelude.{
  ℕ, zero, suc, ◌+◌, ◌*◌, ◌/◌, ◌%◌, Bool, true, false, Option, none, some, List, [], ◌∷◌, ◌++◌,
  ◌==◌, ◌&&◌, leb, ltb, if◌then◌else◌, length, codes, c_str,
}
use lrued_redis_storage_iceb.State.{Text}
use lrued_redis_storage_iceb.Md5.{md5_digest}
use lrued_redis_storage_iceb.Store.{sum_bytes}

-- What the functions call: directories and the consistent hash, and the uninitialised buffer of the
-- `MD5_CTX` of `hash`. `W` is the state of the world, `C` a `struct conhash_s`.
pub record Env (W C : Type 0) : Type 0 where
  pub md5_buffer : Text
  pub opendir : Text → W → Bool × W
  pub mkdir : Text → W → W
  pub closedir : Text → W → W
  pub conhash_init : W → Option C × W
  pub conhash_add : C → Text → C
  pub conhash_lookup : C → Text → Option Text

-- `char url[45]`
abbrev pub url_size : ℕ
url_size = 45

abbrev pub hash_slot : ℕ
hash_slot = 10

-- What is copied to `url` first.
unfoldable pub write_root : Text
write_root = codes "/usr/local/openresty/nginx/html/files/"

unfoldable pub read_root : Text
read_root = codes "/files/"

-- `while(anchor > 1)` of `writeGetPath`: the characters that one level appends, the first for the
-- highest digit. They are kept in `char`; `none` is a division by zero. The anchor falls, so `anchor`
-- rounds serve.
unfoldable pub write_digits : ℕ → ℕ → ℕ → Option Text
write_digits zero anchor num = none
write_digits (suc rounds) anchor num =
    let next = anchor / 10 in
    elim (leb anchor 1) [
      | true ↦ some []
      | false ↦ elim (next == 0) [
        | true ↦ none
        | false ↦ elim (write_digits rounds next (num % next)) [
          | none ↦ none
          | some ds ↦ some ((num / next + 48) % 256 ∷ ds)
        ]
      ]
    ]

-- `while(anchor > 1)` of `readGetPath`, in the same way.
unfoldable pub read_digits : ℕ → ℕ → ℕ → Option Text
read_digits zero anchor num = none
read_digits (suc rounds) anchor num =
    let next = anchor / 10 in
    elim (leb anchor 1) [
      | true ↦ some []
      | false ↦ elim (next == 0) [
        | true ↦ none
        | false ↦ elim (read_digits rounds next (num % next)) [
          | none ↦ none
          | some ds ↦ some ((num / next + 48) % 256 ∷ ds)
        ]
      ]
    ]

-- `room` is the size of `str`, `size` that of `url`, which has a NUL behind the text: whether both
-- texts fit.
abbrev pub fits : ℕ → ℕ → Text → Text → Bool
fits room size str url = leb (length str) room && ltb (length url) size

module _ {W C : Type 0} (env : Env W C) where
  -- For `slot` 0 it divides by zero, which its callers rule out.
  unfoldable pub file_hash : Text → ℕ → ℕ
  file_hash src slot = sum_bytes (md5_digest env.md5_buffer (c_str src)) % slot

  -- `opendir`, and `mkdir` where there is no such directory
  unfoldable pub ensure_dir : Text → W → W
  ensure_dir url w =
      let (found, w') = env.opendir url w in if found then env.closedir url w' else env.mkdir url w'

  -- The rounds left of `writeGetPath`, each of which makes sure of the directory that it names. A
  -- round that writes past the end of `str` or of `url` is undefined.
  unfoldable pub write_rounds : ℕ → ℕ → ℕ → ℕ → Text → Text → W → Option (Text × W)
  write_rounds zero size slot room str url w = some (url, w)
  write_rounds (suc rounds) size slot room str url w =
      elim (write_digits slot slot (file_hash str slot)) [
        | none ↦ none
        | some ds ↦
            let url' = url ++ (ds ++ (47 ∷ [])) in
            if fits room size (str ++ ds) url'
            then write_rounds rounds size slot room (str ++ ds) url' (ensure_dir url' w)
            else none
      ]

  -- `writeGetPath` with a `url` of `size` bytes: what it writes there before the NUL. The key ends at
  -- its first NUL, and `str` has room for nine digits behind it. `none` is undefined behaviour.
  unfoldable pub write_path_in : ℕ → Text → ℕ → W → Option (Text × W)
  write_path_in size key slot w =
      if slot == 0
      then none
      else write_rounds 3 size slot (9 + length (c_str key)) (c_str key) write_root w

  unfoldable pub write_get_path : Text → ℕ → W → Option (Text × W)
  write_get_path = write_path_in url_size

  -- The rounds left of `readGetPath`, which writes the NUL only behind the last.
  unfoldable pub read_rounds : ℕ → ℕ → ℕ → Text → Text → Option Text
  read_rounds zero slot room str url = some url
  read_rounds (suc rounds) slot room str url = elim (read_digits slot slot (file_hash str slot)) [
    | none ↦ none
    | some ds ↦
        let url' = url ++ (ds ++ (47 ∷ [])) in
        if fits room url_size (str ++ ds) url'
        then read_rounds rounds slot room (str ++ ds) url'
        else none
  ]

  unfoldable pub read_get_path : Text → ℕ → Option Text
  read_get_path key slot =
      if slot == 0 then none else read_rounds 3 slot (9 + length (c_str key)) (c_str key) read_root

  -- `init_route`: the hash with the two file servers.
  unfoldable pub init_route : W → Option C × W
  init_route w =
      let (made, w') = env.conhash_init w in
      elim made [
        | none ↦ (none, w')
        | some c ↦ (
          some (env.conhash_add (env.conhash_add c (codes "10.50.8.73")) (codes "10.50.8.74")),
          w',
        )
      ]

  -- Both results of `init_route`, 1 and -1, are true in the `if`. A NULL hash finds nothing.
  unfoldable pub get_host : Text → W → Text × W
  unfolding init_route
  get_host key w =
      let (made, w') = init_route w in
      elim made [
        | none ↦ (codes "error", w')
        | some c ↦ elim (env.conhash_lookup c (c_str key)) [
          | none ↦ (codes "error", w')
          | some iden ↦ (iden, w')
        ]
      ]

  -- The nodes `sprintf(str, "%d", j)` from `j` on, for numbers of one digit.
  unfoldable pub add_slots : ℕ → ℕ → C → C
  add_slots zero j c = c
  add_slots (suc n) j c = add_slots n (j + 1) (env.conhash_add c ((j + 48) ∷ []))

  -- `init`: the hash with the slots "0" to "9".
  unfoldable pub init : W → Option C × W
  unfolding add_slots
  init w =
      let (made, w') = env.conhash_init w in
      elim made [ none ↦ (none, w') | some c ↦ (some (add_slots hash_slot 0 c), w') ]
