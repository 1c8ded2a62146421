-- ===== src/FilePath/Query.antt =====
-- nginx/c/main.c: the command line program that prints the path and the file server of a key.
use lrued_redis_storage_iceb.Prelude.{
  ℕ, ◌+◌, ◌*◌, ◌/◌, Option, none, some, [], ◌∷◌, ◌++◌, codes, c_str,
}
use lrued_redis_storage_iceb.State.{Text}
use lrued_redis_storage_iceb.FilePath.{Env, read_get_path, get_host}

-- A line with a label.
unfoldable pub line : Text → Text → Text
line label text = label ++ (text ++ (10 ∷ []))

module _ {W C : Type 0} (env : Env W C)
    -- `gettimeofday`, as seconds and microseconds, and `%ld`
    (gettimeofday : W → (ℕ × ℕ) × W) (decimal : ℕ → Text) where
  unfoldable pub get_current_time : W → ℕ × W
  get_current_time w = let ((sec, usec), w') = gettimeofday w in (sec * 1000 + usec / 1000, w')

  unfoldable pub time_line : W → Text × W
  unfolding get_current_time line
  time_line w = let (t, w') = get_current_time w in (line (codes "c/c++ program:") (decimal t), w')

  -- What the program prints for `argv[1]`; `none` is undefined behaviour.
  unfoldable pub query : Text → W → Option (Text × W)
  unfolding time_line line
  query key w =
      let (first, w1) = time_line w in
      elim (read_get_path env key 1000) [
        | none ↦ none
        | some path ↦
            let (second, w2) = time_line w1 in
            let (third, w3) = time_line w2 in
            let (host, w4) = get_host env key w3 in
            let head = line (codes "key ") (c_str key) ++ (first ++ second) in
            let tail = third ++ line (codes "host ") host in
            some (head ++ (line (codes "query host:") (c_str path) ++ tail), w4)
      ]
