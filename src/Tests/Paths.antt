-- ===== src/Tests/Paths.antt =====
-- Runs of nginx/c/hash.c.
use lrued_redis_storage_iceb.Prelude.{
  ◌≡◌, ◌+◌, ◌≤◌, ◌<◌, ◌⊎◌, ◌++◌, none, some, List, [], ◌∷◌, codes, length, c_str, replicate, false,
}
use lrued_redis_storage_iceb.State.{Text}
use lrued_redis_storage_iceb.FilePath.{
  Env, write_get_path, write_path_in, read_get_path, write_root, read_root, url_size, ensure_dir,
}
use lrued_redis_storage_iceb.FilePath.Agree.{paths_agree}
use lrued_redis_storage_iceb.FilePath.Levels.{
  one_digit, first_in, second_in, third_in, level_three, read_levels,
}
use lrued_redis_storage_iceb.FilePath.Written.{write_levels, url_overrun}

-- Every directory is missing; the world is the list of those made.
abbrev bare : Env (List Text) (List Text)
bare = record {
  md5_buffer = replicate 64 7;
  opendir = λ url w. (false, w);
  mkdir = λ url w. url ∷ w;
  closedir = λ url w. w;
  conhash_init = λ w. (some [], w);
  conhash_add = λ c iden. iden ∷ c;
  conhash_lookup = λ c key. none;
}

abbrev user : Text
user = codes "user:1"

paths_agree_example :
    ((read_get_path bare user 10 ≡ none) × (write_get_path bare user 10 [] ≡ none))
    ⊎ ((s : Text) × (read_get_path bare user 10 ≡ some (read_root ++ s))
        × (((length (write_root ++ s) + 1 ≤ url_size)
              × ((w : List Text) × (write_get_path bare user 10 [] ≡ some (write_root ++ s, w))))
            ⊎ ((url_size < length (write_root ++ s) + 1)
                × (write_get_path bare user 10 [] ≡ none))))
paths_agree_example = paths_agree bare user 10 []

write_levels_example :
    write_get_path bare user 10 []
    ≡ some (
      third_in bare one_digit 10 write_root (c_str user),
      third_in bare one_digit 10 write_root (c_str user)
          ∷ second_in bare one_digit 10 write_root (c_str user)
          ∷ first_in bare one_digit 10 write_root (c_str user)
          ∷ [],
    )
unfolding ensure_dir
write_levels_example = write_levels bare user []

url_overrun_example :
    (write_get_path bare user 1000 [] ≡ none)
    × ((path : Text) × (w : List Text) × (path' : Text) × (write_path_in bare
            (url_size + 6)
            user
            1000
            []
          ≡ some (path, w))
        × (read_get_path bare user 1000 ≡ some path')
        × (length path + 1 ≡ url_size + 6)
        × (length path' + 1 ≤ url_size))
url_overrun_example = url_overrun bare user []

-- What the reader names at the slot 1000.
read : read_get_path bare user 1000 ≡ some (level_three bare read_root (c_str user))
read = read_levels bare user
