-- ===== src/FilePath/Levels.antt =====
-- The levels of a path of nginx/c/hash.c: at the slot 1000, which the callers pass, each has three
-- digits, at the slot 10 it has one.
use lrued_redis_storage_iceb.Prelude.{
  ℕ, suc, ◌+◌, ◌/◌, ◌%◌, ◌≤◌, ◌<◌, ◌≡◌, refl, none, some, [], ◌∷◌, ◌++◌, arith, length,
  length-append, ◌∙◌, c_str,
}
use lrued_redis_storage_iceb.State.{Text}
use lrued_redis_storage_iceb.FilePath.{
  Env, url_size, ensure_dir, write_digits, read_digits, file_hash, write_rounds, read_rounds,
  read_get_path, read_root,
}

-- A number below 1000 as the three characters of its digits.
abbrev pub three_digits : ℕ → Text
three_digits n = (n / 100 + 48) ∷ (n % 100 / 10 + 48) ∷ (n % 10 + 48) ∷ []

-- A number below 10 as its digit.
abbrev pub one_digit : ℕ → Text
one_digit n = (n + 48) ∷ []

pub write_digits-1000 : (n : ℕ) → n < 1000 → write_digits 1000 1000 n ≡ some (three_digits n)
unfolding write_digits
write_digits-1000 n h = ground arith

read_digits-1000 : (n : ℕ) → n < 1000 → read_digits 1000 1000 n ≡ some (three_digits n)
unfolding read_digits
read_digits-1000 n h = ground arith

pub write_digits-10 : (n : ℕ) → n < 10 → write_digits 10 10 n ≡ some (one_digit n)
unfolding write_digits
write_digits-10 n h = ground arith

module _ {W C : Type 0} (env : Env W C) where
  -- One level at a slot, whose number `digits` writes: the hash of the key and of the digits so far.
  abbrev pub piece_in : (ℕ → Text) → ℕ → Text → Text
  piece_in digits slot str = digits (file_hash env str slot)

  -- The paths of the three levels of a key behind a prefix.
  abbrev pub first_in : (ℕ → Text) → ℕ → Text → Text → Text
  first_in digits slot root key = root ++ (piece_in digits slot key ++ (47 ∷ []))

  abbrev pub second_in : (ℕ → Text) → ℕ → Text → Text → Text
  second_in digits slot root key =
      first_in digits slot root key
      ++ (piece_in digits slot (key ++ piece_in digits slot key) ++ (47 ∷ []))

  abbrev pub third_in : (ℕ → Text) → ℕ → Text → Text → Text
  third_in digits slot root key =
      let one = key ++ piece_in digits slot key in
      second_in digits slot root key
      ++ (piece_in digits slot (one ++ piece_in digits slot one) ++ (47 ∷ []))

  -- The same at the slot 1000.
  abbrev pub piece_of : Text → Text
  piece_of = piece_in three_digits 1000

  abbrev pub level_three : Text → Text → Text
  level_three = third_in three_digits 1000

  pub file_hash-lt : (str : Text) (slot : ℕ) → 0 < slot → file_hash env str slot < slot
  unfolding file_hash
  file_hash-lt str slot h = omega arith

  -- A round of the writer that stays in `str` and in `url`.
  pub write_round :
      (digits : ℕ → Text) (slot size rounds room : ℕ) (str url : Text) (w : W)
      → write_digits slot slot (file_hash env str slot) ≡ some (piece_in digits slot str)
      → length (str ++ piece_in digits slot str) ≤ room
      → length (url ++ (piece_in digits slot str ++ (47 ∷ []))) + 1 ≤ size
      → write_rounds env (suc rounds) size slot room str url w
        ≡ write_rounds env rounds size slot room
            (str ++ piece_in digits slot str)
            (url ++ (piece_in digits slot str ++ (47 ∷ [])))
            (ensure_dir env (url ++ (piece_in digits slot str ++ (47 ∷ []))) w)
  unfolding write_rounds
  write_round digits slot size rounds room str url w e enough fit = ground (arith, e)

  -- A round of the writer that writes past the end of `url`.
  pub write_round-overrun :
      (digits : ℕ → Text) (slot size rounds room : ℕ) (str url : Text) (w : W)
      → write_digits slot slot (file_hash env str slot) ≡ some (piece_in digits slot str)
      → size < length (url ++ (piece_in digits slot str ++ (47 ∷ []))) + 1
      → write_rounds env (suc rounds) size slot room str url w ≡ none
  unfolding write_rounds
  write_round-overrun digits slot size rounds room str url w e over = ground (arith, e)

  read_round :
      (digits : ℕ → Text) (slot rounds room : ℕ) (str url : Text)
      → read_digits slot slot (file_hash env str slot) ≡ some (piece_in digits slot str)
      → length (str ++ piece_in digits slot str) ≤ room
      → length (url ++ (piece_in digits slot str ++ (47 ∷ []))) + 1 ≤ url_size
      → read_rounds env (suc rounds) slot room str url
        ≡ read_rounds env rounds slot room
            (str ++ piece_in digits slot str)
            (url ++ (piece_in digits slot str ++ (47 ∷ [])))
  unfolding read_rounds
  read_round digits slot rounds room str url e enough fit = ground (arith, e)

  pub three : (str : Text) → write_digits 1000 1000 (file_hash env str 1000) ≡ some (piece_of str)
  three str = write_digits-1000 _ (file_hash-lt str 1000 (omega arith))

  pub length-piece : (str : Text) → length (str ++ piece_of str) ≡ length str + 3
  length-piece str = omega (arith, length-append str (piece_of str))

  read_three : (str : Text) → read_digits 1000 1000 (file_hash env str 1000) ≡ some (piece_of str)
  read_three str = read_digits-1000 _ (file_hash-lt str 1000 (omega arith))

  -- The reader's three levels at the slot 1000, which fit.
  pub read_levels :
      (key : Text) → read_get_path env key 1000 ≡ some (level_three read_root (c_str key))
  unfolding read_get_path read_root
  read_levels key =
      let k = c_str key in
      let room = 9 + length k in
      let one = k ++ piece_of k in
      read_round three_digits 1000 2 room k read_root (read_three k) (omega (arith, length-piece k))
        (omega arith)
      ∙ read_round three_digits 1000 1 room one _ (read_three one)
          (omega (arith, length-piece k, length-piece one)) (omega arith)
      ∙ read_round three_digits 1000 0 room (one ++ piece_of one) _
          (read_three (one ++ piece_of one))
          (omega (arith, length-piece k, length-piece one, length-piece (one ++ piece_of one)))
          (omega arith)
      ∙ unfold read_rounds in refl
