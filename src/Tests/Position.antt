-- ===== src/Tests/Position.antt =====
-- Runs of client/src/main/java/com/ifeng/iceberg and of nginx/lua/writeData.lua.
use lrued_redis_storage_iceb.Prelude.{
  ℕ, ◌+◌, ◌%◌, ◌≡◌, ◌⊎◌, refl, true, false, none, some, [], ◌∷◌, ◌++◌, arith, length, codes,
  replicate, strcmp,
}
use lrued_redis_storage_iceb.State.{Text, Os, Hosts, ok}
use lrued_redis_storage_iceb.Startup.{init_host}
use lrued_redis_storage_iceb.Startup.Backups.{Server, ips_of}
use lrued_redis_storage_iceb.Store.{object, save_value}
use lrued_redis_storage_iceb.Store.Replicated.{posted}
use lrued_redis_storage_iceb.FilePath.{Env, read_get_path}
use lrued_redis_storage_iceb.Client.{Jdk, IcebergClient, get_position, load_files, new_client}
use lrued_redis_storage_iceb.Client.Directories.{IsJdk}
use lrued_redis_storage_iceb.Client.Position.{lists_of, get_position-posted}
use lrued_redis_storage_iceb.WriteData.{Openresty, undefined_path, write_data_handler}
use lrued_redis_storage_iceb.FilePath.Written.{url_overrun}
use lrued_redis_storage_iceb.Md5.Padded.{reference, reference-bytes}
use lrued_redis_storage_iceb.Tests.Backups.{servers}
use lrued_redis_storage_iceb.Tests.Stores.{servers-AreDistinct}
use lrued_redis_storage_iceb.Tests.World.{Log, quiet, connected}

abbrev proxy : Os Log Text
proxy = quiet

-- The world of the client is the number that it draws next.
abbrev java : Jdk ℕ
java = record {
  get_bytes = λ s. s;
  md5 = reference;
  next_int = λ n w. (w % n, w + 1);
  url_encode = λ s. s;
  split = λ by s. s ∷ [];
  parse_int = λ s. some (length s);
}

-- Every directory is missing; the world of the file server is the list of what was done.
abbrev files : Env Log Text
files = record {
  md5_buffer = replicate 64 0;
  opendir = λ url w. (false, w);
  mkdir = λ url w. url ∷ w;
  closedir = λ url w. w;
  conhash_init = λ w. (none, w);
  conhash_add = λ c iden. c;
  conhash_lookup = λ c key. none;
}

java-IsJdk : IsJdk java
java-IsJdk = record {
  plain_bytes = λ s plain. refl;
  same_digest = reference-bytes;
  drawn_below = λ n w h. omega arith;
}

abbrev client : IcebergClient
client = record { dir_num = 1000; ips = lists_of servers }

get_position-posted_example :
    (s : Server) × (h : Hosts) × (host path : Text) × (w' : ℕ) × (init_host
        (3 ∷ 1 ∷ [])
        (ips_of servers)
      ≡ some h)
    × (save_value proxy (object (codes "{}")) (codes "name") (record (connected []) { hosts = h })
        ≡ ok (
          true,
          record (connected []) {
            hosts = h;
            world =
                posted proxy s.backup
                  (codes "name")
                  (codes "{}")
                  (posted proxy s.master (codes "name") (codes "{}") []);
          },
        ))
    × ((host ≡ s.master) ⊎ (host ≡ s.backup))
    × (read_get_path files (codes "name") 1000 ≡ some path)
    × (get_position java client (codes "name") 7
        ≡ some (codes "http://" ++ (host ++ (codes ":8090" ++ (path ++ codes "name"))), w'))
get_position-posted_example =
    get_position-posted java files proxy client servers (3 ∷ 1 ∷ []) (codes "{}") (codes "name")
      (codes "{}") (connected []) 7 java-IsJdk refl refl refl refl (omega arith) (omega arith)
      servers-AreDistinct (omega arith, (omega arith, tt)) (λ w. omega arith) refl

-- What the client makes of two settings files and of another file: the later one counts.
loaded :
    new_client java (
      load_files
        ((codes "a.conf", some ((codes "dir_num", codes "12345") ∷ []))
          ∷ (
            codes "b.conf",
            some (
                (codes "masters", codes "m")
                ∷ (codes "slaves", codes "s")
                ∷ (codes "dir_num", codes "1234")
                ∷ []),
          )
          ∷ (codes "c.txt", some ((codes "dir_num", codes "1") ∷ []))
          ∷ [])
        [])
    ≡ some (record { dir_num = 4; ips = (codes "m" ∷ []) ∷ (codes "s" ∷ []) ∷ [] })
unfolding new_client load_files lrued_redis_storage_iceb.Client.get_sys_property
    lrued_redis_storage_iceb.Client.is_conf strcmp
loaded = refl

-- A body that nginx keeps in a file is not in memory.
abbrev lua : Openresty Log
lua = record {
  unescape_uri = λ key. elim key [ none ↦ [] | some text ↦ text ];
  open_file = λ name w. (true, name ∷ w);
  set_output = λ name w. w;
  read_body = λ w. w;
  get_body_data = λ w. none;
  write = λ name body w. (name ++ body) ∷ w;
  close = λ name w. w;
  say = λ text w. w;
}

-- The handler goes to the slot 1000.
unanswered : write_data_handler files lua (some (codes "name")) [] ≡ undefined_path
unfolding write_data_handler
unanswered = rw ((url_overrun files (codes "name") []).0, write_data_handler) refl
