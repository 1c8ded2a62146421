-- ===== src/Client/Directories.antt =====
-- getPath of client/src/main/java/com/ifeng/iceberg/IcebergClient.java beside nginx/c/hash.c.
use lrued_redis_storage_iceb.Prelude.{
  ℕ, ◌+◌, ◌%◌, ◌<◌, ◌≡◌, refl, sym, ◌∙◌, ap, some, List, [], ◌∷◌, ◌++◌, arith, map, length, codes,
  c_str,
}
use lrued_redis_storage_iceb.State.{Text}
use lrued_redis_storage_iceb.Parser.Number.{NoNul, c_str_whole}
use lrued_redis_storage_iceb.Store.{sum_bytes}
use lrued_redis_storage_iceb.FilePath.{Env, file_hash, read_get_path, read_root}
use lrued_redis_storage_iceb.FilePath.Levels.{three_digits, piece_of, level_three, read_levels}
use lrued_redis_storage_iceb.Md5.{md5_digest}
use lrued_redis_storage_iceb.Md5.Padded.{reference, md5_digest_lem}
use lrued_redis_storage_iceb.Client.{
  Jdk, IcebergClient, total_of, decimal, format_03d, hash, get_path,
}

-- ASCII characters, none of them NUL.
abbrev pub IsPlain : Text → Type 0
IsPlain [] = Unit {0}
IsPlain (c ∷ cs) = (0 < c) × (c < 128) × IsPlain cs

IsPlain-append : (xs ys : Text) → IsPlain xs → IsPlain ys → IsPlain (xs ++ ys)
IsPlain-append [] ys h h' = h'
IsPlain-append (x ∷ xs) ys h h' = (h.0, h.1, IsPlain-append xs ys h.2 h')

IsPlain-NoNul : (xs : Text) → IsPlain xs → NoNul xs
IsPlain-NoNul [] h = tt
IsPlain-NoNul (x ∷ xs) h = (omega (arith, h.0), IsPlain-NoNul xs h.2)

three_digits-IsPlain : (n : ℕ) → n < 1000 → IsPlain (three_digits n)
three_digits-IsPlain n h =
    (omega arith, omega arith, (omega arith, omega arith, (omega arith, omega arith, tt)))

format_03d-three_digits : (n : ℕ) → n < 1000 → format_03d n ≡ three_digits n
unfolding format_03d decimal
format_03d-three_digits n h = ground arith

total_of-sum_bytes : (bs : List ℕ) → total_of bs ≡ sum_bytes (map (λ b. b % 256) bs)
unfolding total_of sum_bytes
total_of-sum_bytes [] = refl
total_of-sum_bytes (b ∷ bs) = ap (λ n. b % 256 + n) (total_of-sum_bytes bs)

-- What the client relies on: the bytes of plain text are its characters, the digest, read byte by
-- byte without sign, is MD5, and `nextInt` stays below its bound.
pub record IsJdk {W : Type 0} (jdk : Jdk W) : Type 0 where
  pub plain_bytes : (s : Text) → IsPlain s → jdk.get_bytes s ≡ s
  pub same_digest : (s : Text) → map (λ b. b % 256) (jdk.md5 s) ≡ reference s
  pub drawn_below : (n : ℕ) (w : W) → 0 < n → (jdk.next_int n w).0 < n

module _ {V W C : Type 0} (jdk : Jdk V) (env : Env W C) (is_jdk : IsJdk jdk)
    (room : length env.md5_buffer ≡ 64) where
  -- The client's hash is that of the servers.
  pub hash_agrees :
      (s : Text) (slot : ℕ) → IsPlain s → 0 < slot → hash jdk s slot ≡ some (file_hash env s slot)
  unfolding hash file_hash
  hash_agrees s slot plain some_slot =
      let same : total_of (jdk.md5 (jdk.get_bytes s))
          ≡ sum_bytes (md5_digest env.md5_buffer (c_str s)) =
        ap (λ t. total_of (jdk.md5 t)) (is_jdk.plain_bytes s plain)
        ∙ total_of-sum_bytes (jdk.md5 s)
        ∙ ap sum_bytes (is_jdk.same_digest s ∙ sym (md5_digest_lem env.md5_buffer s room))
        ∙ ap (λ t. sum_bytes (md5_digest env.md5_buffer t))
            (sym (c_str_whole s (IsPlain-NoNul s plain))) in
      ground (arith, same)

  piece_of-lt : (s : Text) → file_hash env s 1000 < 1000
  unfolding file_hash
  piece_of-lt s = omega arith

  piece_of-IsPlain : (s : Text) → IsPlain (piece_of env s)
  piece_of-IsPlain s = three_digits-IsPlain (file_hash env s 1000) (piece_of-lt s)

  with_piece-IsPlain : (s : Text) → IsPlain s → IsPlain (s ++ piece_of env s)
  with_piece-IsPlain s plain = IsPlain-append s (piece_of env s) plain (piece_of-IsPlain s)

  -- One directory of the client's path.
  directory :
      (s : Text)
      → IsPlain s
      → (hash jdk s 1000 ≡ some (file_hash env s 1000))
        × (format_03d (file_hash env s 1000) ≡ piece_of env s)
  directory s plain = (
    hash_agrees s 1000 plain (omega arith),
    format_03d-three_digits (file_hash env s 1000) (piece_of-lt s),
  )

  -- The client's path is the reader's without the prefix, and with the encoded key.
  pub get_path_lem :
      (client : IcebergClient) (key : Text)
      → client.dir_num ≡ 1000
      → IsPlain key
      → (path : Text) × (p : Text) × (read_get_path env key 1000 ≡ some path)
        × (get_path jdk client key ≡ some p)
        × (codes "/files" ++ p ≡ path ++ jdk.url_encode key)
  unfolding get_path read_root
  get_path_lem client key same plain =
      let whole = c_str_whole key (IsPlain-NoNul key plain) in
      let one = key ++ piece_of env key in
      let plain1 = with_piece-IsPlain key plain in
      let (h1, f1) = directory key plain in
      let (h2, f2) = directory one plain1 in
      let (h3, f3) = directory (one ++ piece_of env one) (with_piece-IsPlain one plain1) in
      (
        level_three env read_root key,
        _,
        read_levels env key ∙ ap (λ k. some (level_three env read_root k)) whole,
        rw (same, h1, f1, h2, f2, h3, f3) refl,
        refl,
      )
