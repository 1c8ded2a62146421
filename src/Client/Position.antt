-- ===== src/Client/Position.antt =====
-- getHost and getPosition of client/src/main/java/com/ifeng/iceberg/IcebergClient.java beside
-- `saveValue` of proxy/store.c, for settings that name the same file servers.
use lrued_redis_storage_iceb.Prelude.{
  ℕ, zero, suc, ◌%◌, ◌<◌, ◌≡◌, ◌⊎◌, refl, sym, ◌∙◌, ap, inl, inr, true, none, some, List, [], ◌∷◌,
  ◌++◌, arith, length, length-map, map, get_elem?, codes, c_str,
}
use lrued_redis_storage_iceb.HashTable.{ulong_max}
use lrued_redis_storage_iceb.State.{Text, Os, Hosts, Globals, ok}
use lrued_redis_storage_iceb.Startup.{init_host}
use lrued_redis_storage_iceb.Startup.Backups.{Server, ips_of, AllBelow}
use lrued_redis_storage_iceb.Store.{object, save_value, sum_bytes}
use lrued_redis_storage_iceb.Store.Replicated.{AreDistinct, posted, save_value-replicates}
use lrued_redis_storage_iceb.FilePath.{Env, file_hash, read_get_path}
use lrued_redis_storage_iceb.Md5.{md5_digest}
use lrued_redis_storage_iceb.Md5.Padded.{md5_digest_lem}
use lrued_redis_storage_iceb.Client.{Jdk, IcebergClient, get_host, get_position}
use lrued_redis_storage_iceb.Client.Directories.{IsPlain, IsJdk, hash_agrees, get_path_lem}

-- The client's lists of the servers, the masters and the slaves.
abbrev pub lists_of : List Server → List (List Text)
lists_of ss = map (λ s. s.master) ss ∷ map (λ s. s.backup) ss ∷ []

get_elem?-map :
    {A B : Type 0} (f : A → B) (xs : List A) (i : ℕ) {x : A}
    → get_elem? xs i ≡ some x
    → get_elem? (map f xs) i ≡ some (f x)
get_elem?-map f [] i e = absurd (ground (arith, e))
get_elem?-map f (x ∷ xs) zero e = ap (λ o. elim o [ none ↦ none | some y ↦ some (f y) ]) e
get_elem?-map f (x ∷ xs) (suc i) e = get_elem?-map f xs i e

module _ {V W C : Type 0} (jdk : Jdk V) (env : Env W C) (is_jdk : IsJdk jdk)
    (room : length env.md5_buffer ≡ 64) (client : IcebergClient) (ss : List Server)
    (lists : client.ips ≡ lists_of ss) where
  -- The list that the client draws.
  drawn_list :
      (n : ℕ)
      → n < 2
      → (f : Server → Text) × (get_elem? (lists_of ss) n ≡ some (map f ss))
        × ((s : Server) → (f s ≡ s.master) ⊎ (f s ≡ s.backup))
  drawn_list zero h = (λ s. s.master, refl, λ s. inl refl)
  drawn_list (suc zero) h = (λ s. s.backup, refl, λ s. inr refl)
  drawn_list (suc (suc n)) h = absurd (omega arith)

  get_host_lem :
      (key : Text) (s : Server) (w : V)
      → IsPlain key
      → 0 < length ss
      → get_elem? ss (file_hash env key (length ss)) ≡ some s
      → (host : Text) × (w' : V) × (get_host jdk client key w ≡ some (host, w'))
        × ((host ≡ s.master) ⊎ (host ≡ s.backup))
  unfolding get_host
  get_host_lem key s w plain some_server chosen =
      let below = is_jdk.drawn_below 2 w (omega arith) in
      let (f, found, who) = drawn_list (jdk.next_int 2 w).0 below in
      let number : length (map f ss) ≡ length ss = length-map ss f in
      let hashed = hash_agrees jdk env is_jdk room key (length ss) plain some_server in
      (
        f s,
        (jdk.next_int 2 w).1,
        rw (lists, found, number, hashed, get_elem?-map f ss _ chosen) refl,
        who s,
      )

-- Where the servers are those of the client's lists, in which the slaves stand as the masters' own
-- backups do, and `dir_num` is 1000, getPosition of a plain key names a server whose writeData URL
-- with the escaped key saveValue posts the dumped object to, the chosen one or its backup, and the
-- path of readGetPath with the encoded key behind it. Where curl_easy_init gives no handle, that one
-- of the two posts is left out. The conditions on the object, the allocations and the servers are
-- those of `save_value-replicates`, the uninitialised buffers of MD5 have their 64 bytes, and the
-- client's digest is MD5.
pub get_position-posted :
    {V U C W J : Type 0} (jdk : Jdk V) (env : Env U C) (os : Os W J) (client : IcebergClient)
    (ss : List Server) (garbage : List ℕ) (j : J) (key value : Text) (g : Globals W) (w : V)
    → IsJdk jdk
    → length env.md5_buffer ≡ 64
    → length os.md5_buffer ≡ 64
    → client.ips ≡ lists_of ss
    → client.dir_num ≡ 1000
    → IsPlain key
    → 0 < length ss
    → AreDistinct ss
    → AllBelow garbage
    → ((u : W) → (os.uninitialised u).0 < ulong_max)
    → os.json_dumps j ≡ some value
    → (s : Server) × (h : Hosts) × (host path : Text) × (w' : V) × (init_host garbage (ips_of ss)
        ≡ some h)
      × (save_value os (object j) key (record g { hosts = h })
          ≡ ok (
            true,
            record g {
              hosts = h;
              world =
                  posted os s.backup key value
                    (os.uninitialised (posted os s.master key value g.world)).1;
            },
          ))
      × ((host ≡ s.master) ⊎ (host ≡ s.backup))
      × (read_get_path env key 1000 ≡ some path)
      × (get_position jdk client key w
          ≡ some (codes "http://" ++ (host ++ (codes ":8090" ++ (path ++ jdk.url_encode key))), w'))
unfolding get_position file_hash lrued_redis_storage_iceb.Store.hash
get_position-posted {V = V} jdk env os client ss garbage j key value g w is_jdk room room' lists
      number plain some_server v below unin dumped =
    let (s, h, chosen, made, saved) =
      save_value-replicates os ss garbage j key value g some_server v below unin dumped in
    let same : md5_digest env.md5_buffer (c_str key) ≡ md5_digest os.md5_buffer (c_str key) =
      md5_digest_lem env.md5_buffer (c_str key) room
      ∙ sym (md5_digest_lem os.md5_buffer (c_str key) room') in
    let chosen' : get_elem? ss (sum_bytes (md5_digest env.md5_buffer (c_str key)) % length ss)
        ≡ some s =
      ap (λ bs. get_elem? ss (sum_bytes bs % length ss)) same ∙ chosen in
    let (host, w', asked, who) =
      get_host_lem jdk env is_jdk room client ss lists key s w plain some_server chosen' in
    let (path, p, read, built, tail) = get_path_lem jdk env is_jdk room client key number plain in
    (
      s,
      h,
      host,
      path,
      w',
      made,
      saved,
      who,
      read,
      rw (asked, built)
          (ap (λ t. some (codes "http://" ++ (host ++ (codes ":8090" ++ t)), w')) tail),
    )
