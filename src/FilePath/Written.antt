-- ===== src/FilePath/Written.antt =====
-- writeGetPath of nginx/c/hash.c at the slots 10 and 1000: where its path fits in `url`, and where not.
use lrued_redis_storage_iceb.Prelude.{
  ℕ, ◌+◌, ◌*◌, ◌≤◌, ◌<◌, ◌≡◌, refl, none, some, [], ◌∷◌, ◌++◌, arith, length, length-append, ◌∙◌,
  c_str,
}
use lrued_redis_storage_iceb.State.{Text}
use lrued_redis_storage_iceb.FilePath.{
  Env, url_size, ensure_dir, write_digits, file_hash, write_rounds, write_path_in, write_get_path,
  read_get_path, write_root, read_root,
}
use lrued_redis_storage_iceb.FilePath.Levels.{
  three_digits, one_digit, write_digits-10, write_digits-1000, piece_in, first_in, second_in,
  third_in, piece_of, level_three, file_hash-lt, write_round, write_round-overrun, three,
  length-piece, read_levels,
}

module _ {W C : Type 0} (env : Env W C) where
  -- The directories of the three levels of a key, made from the top.
  abbrev pub with_dirs : (ℕ → Text) → ℕ → Text → W → W
  with_dirs digits slot key w = ensure_dir env (third_in env digits slot write_root key) (
      ensure_dir env (second_in env digits slot write_root key)
        (ensure_dir env (first_in env digits slot write_root key) w))

  -- With `width` digits in each level, three of them and a NUL fit in `url`.
  module _ (digits : ℕ → Text) (slot width size : ℕ) (some_slot : 0 < slot)
      (written : (n : ℕ) → n < slot → write_digits slot slot n ≡ some (digits n))
      (wide : (n : ℕ) → length (digits n) ≡ width) (narrow : width ≤ 3)
      (fit : 42 + 3 * width ≤ size) where
    length-level : (str : Text) → length (str ++ piece_in env digits slot str) ≡ length str + width
    length-level str =
        omega
          (arith, length-append str (piece_in env digits slot str), wide (file_hash env str slot))

    length-url :
        (str url : Text)
        → length (url ++ (piece_in env digits slot str ++ (47 ∷ []))) ≡ length url + width + 1
    length-url str url = omega (
      arith,
      length-append url (piece_in env digits slot str ++ (47 ∷ [])),
      length-append (piece_in env digits slot str) (47 ∷ []),
      wide (file_hash env str slot),
    )

    step :
        (str : Text)
        → write_digits slot slot (file_hash env str slot) ≡ some (piece_in env digits slot str)
    step str = written _ (file_hash-lt env str slot some_slot)

    write_three :
        (key : Text) (w : W)
        → write_path_in env size key slot w
          ≡ some
              (third_in env digits slot write_root (c_str key), with_dirs digits slot (c_str key) w)
    unfolding write_path_in
    write_three key w =
        let k = c_str key in
        let room = 9 + length k in
        let one = k ++ piece_in env digits slot k in
        let two = one ++ piece_in env digits slot one in
        let root : length write_root ≡ 38 = unfold write_root in refl in
        let first = length-url k write_root in
        let second = length-url one (first_in env digits slot write_root k) in
        let goes : write_rounds env 3 size slot room k write_root w
            ≡ some (third_in env digits slot write_root k, with_dirs digits slot k w) =
          write_round env digits slot size 2 room k write_root w (step k)
            (omega (arith, length-level k)) (omega (arith, first))
          ∙ write_round env digits slot size 1 room one _ _ (step one)
              (omega (arith, length-level k, length-level one)) (omega (arith, first, second))
          ∙ write_round env digits slot size 0 room two _ _ (step two)
              (omega (arith, length-level k, length-level one, length-level two))
              (omega
                (arith, first, second, length-url two (second_in env digits slot write_root k)))
          ∙ unfold write_rounds in refl in
        ground (arith, goes)

  -- With the slot 10, where the path and its NUL take the 45 bytes of `url`, the writer makes sure of
  -- the directory of each of the three levels, from the top, and returns the path of the third.
  pub write_levels :
      (key : Text) (w : W)
      → write_get_path env key 10 w
        ≡ some (
          third_in env one_digit 10 write_root (c_str key),
          ensure_dir env (third_in env one_digit 10 write_root (c_str key)) (
              ensure_dir env
                (second_in env one_digit 10 write_root (c_str key))
                (ensure_dir env (first_in env one_digit 10 write_root (c_str key)) w)),
        )
  unfolding write_get_path
  write_levels key w =
      write_three one_digit 10 1 url_size (omega arith) write_digits-10 (λ n. refl) (omega arith)
        (omega arith) key w

  -- For every key at the slot 1000 the writer overruns `url`: it is undefined, and would need an
  -- array of 51 bytes for its path and the NUL, six more than `url` has, while those of the reader
  -- fit.
  pub url_overrun :
      (key : Text) (w : W)
      → (write_get_path env key 1000 w ≡ none)
        × ((path : Text) × (w' : W) × (path' : Text) × (write_path_in env (url_size + 6) key 1000 w
              ≡ some (path, w'))
            × (read_get_path env key 1000 ≡ some path')
            × (length path + 1 ≡ url_size + 6)
            × (length path' + 1 ≤ url_size))
  unfolding write_get_path write_path_in write_root
  url_overrun key w =
      let k = c_str key in
      let one = k ++ piece_of env k in
      (
        write_round env three_digits 1000 url_size 2 (9 + length k) k write_root w (three env k)
              (omega (arith, length-piece env k)) (omega arith)
            ∙ write_round-overrun env three_digits 1000 url_size 1 (9 + length k) one _ _
                (three env one) (omega arith),
        (
          level_three env write_root k,
          _,
          level_three env read_root k,
          write_three three_digits 1000 3 (url_size + 6) (omega arith) write_digits-1000 (λ n. refl)
              (omega arith) (omega arith) key w,
          read_levels env key,
          unfold write_root in refl,
          unfold read_root in omega arith,
        ),
      )
