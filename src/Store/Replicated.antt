-- ===== src/Store/Replicated.antt =====
-- `saveValue` of proxy/store.c with the file servers of `initHost`: an object is posted to the server
-- that the hash of its key chooses, and to that server's own backup.
use native.Mathlib.Nat.{mod-lt}
use lrued_redis_storage_iceb.Prelude.{
  ℕ, zero, suc, ◌<◌, ◌≡◌, ◌≢◌, refl, true, Bool-cases, inl, inr, Option, none, some, List, [], ◌∷◌,
  if◌then◌else◌, ◌∙◌, ap, arith, length, get_elem?, c_str, ◌++◌, codes,
}
use lrued_redis_storage_iceb.HashTable.{ulong_max, ht_get}
use lrued_redis_storage_iceb.HashTable.Strcmp.{eq_of_same, strcmp_self}
use lrued_redis_storage_iceb.State.{
  Text, Os, Hosts, Globals, M, ok, ◌>>=◌, ◌>>◌, pure, gets, call, fails,
}
use lrued_redis_storage_iceb.Md5.{md5_digest}
use lrued_redis_storage_iceb.Startup.{init_host}
use lrued_redis_storage_iceb.Startup.Backups.{
  Server, ips_of, masters_of, backup_in, AllBelow, init_host-backups,
}
use lrued_redis_storage_iceb.Store.{
  object, hash, make_url, send_to_host, lookup_host, send_all, save_json, save_value, sum_bytes,
}

-- No two servers have the same name.
abbrev pub AreDistinct : List Server → Type 0
AreDistinct [] = Unit {0}
AreDistinct (s ∷ ss) =
    ((i : ℕ) (s' : Server) → get_elem? ss i ≡ some s' → s.master ≢ s'.master) × AreDistinct ss

server_at : (ss : List Server) (i : ℕ) → i < length ss → (s : Server) × (get_elem? ss i ≡ some s)
server_at [] i h = absurd (omega arith)
server_at (s ∷ ss) zero h = (s, refl)
server_at (s ∷ ss) (suc i) h = server_at ss i (omega (arith, h))

get_elem?-masters_of :
    (ss : List Server) (i : ℕ) (s : Server)
    → get_elem? ss i ≡ some s
    → get_elem? (masters_of ss) i ≡ some (some s.master)
unfolding masters_of
get_elem?-masters_of [] i s e = absurd (ground (arith, e))
get_elem?-masters_of (s' ∷ ss) zero s e =
    ap (λ t. elim t [ none ↦ none | some r ↦ some (some r.master) ]) e
get_elem?-masters_of (s' ∷ ss) (suc i) s e = get_elem?-masters_of ss i s e

length-masters_of : (ss : List Server) → length (masters_of ss) ≡ length ss
unfolding masters_of
length-masters_of [] = refl
length-masters_of (s ∷ ss) = ap suc (length-masters_of ss)

backup_in-absent :
    (ss : List Server) (key : Text)
    → ((i : ℕ) (s : Server) → get_elem? ss i ≡ some s → key ≢ s.master)
    → backup_in ss key ≡ none
unfolding backup_in
backup_in-absent [] key h = refl
backup_in-absent (s ∷ ss) key h =
    let rest = backup_in-absent ss key (λ i s'. h (suc i) s') in
    ground (arith, rest, h 0 s refl, eq_of_same key s.master)

-- With different names each server has its own backup.
backup_in-own :
    (ss : List Server) (i : ℕ) (s : Server)
    → AreDistinct ss
    → get_elem? ss i ≡ some s
    → backup_in ss s.master ≡ some s.backup
unfolding backup_in
backup_in-own [] i s v e = absurd (ground (arith, e))
backup_in-own (s' ∷ ss) zero s v e =
    let same : s' ≡ s = cc e in
    rw (← same) (ground (arith, backup_in-absent ss s'.master v.0, strcmp_self s'.master))
backup_in-own (s' ∷ ss) (suc i) s v e = ground (arith, backup_in-own ss i s v.1 e)

module _ {W J : Type 0} (os : Os W J) where
  -- The world behind a request to a server: if curl_easy_init gives a handle, the value is posted to
  -- http://HOST:8090/writeData?key=KEY with the escaped key; if it gives none, nothing is posted.
  abbrev pub posted : Text → Text → Text → W → W
  posted host key value w =
      if (os.curl_init w).0
      then (os.curl_post
          (codes "http://"
            ++ (host ++ (codes ":8090/writeData?key=" ++ os.curl_escape (c_str key))))
          value (os.curl_init w).1).1
      else (os.curl_init w).1

  send_to_host-posted :
      (host key value : Text) (g : Globals W)
      → send_to_host os host key value g
        ≡ ok (tt, record g { world = posted host key value g.world })
  unfolding send_to_host make_url
  send_to_host-posted host key value g = elim (Bool-cases (os.curl_init g.world).0) [
    | inl can ↦ rw can refl
    | inr cannot ↦ rw cannot refl
  ]

  lookup_host-found :
      (key : Text) (i : ℕ) (host : Text) (g : Globals W)
      → 0 < g.hosts.host_master_num
      → hash os key g.hosts.host_master_num ≡ i
      → get_elem? g.hosts.host_masters i ≡ some (some host)
      → lookup_host os key g ≡ ok (some host, g)
  lookup_host-found key i host g h e found = ground (arith, e, found)

  -- `saveValue` behind the first `sendToHost`
  abbrev pub to_backup : Option Text → Text → Text → M W (Unit {0})
  to_backup backup key value = elim backup [ none ↦ pure tt | some b ↦ send_to_host os b key value ]

  abbrev behind_first : Text → Text → Text → M W (Unit {0})
  behind_first host key value = call os.uninitialised >>= λ garbage.
      gets (λ g. ht_get garbage g.hosts.hashtable host) >>= λ b. to_backup b key value

  send_all-both :
      (host backup key value : Text) (g : Globals W)
      → let w = posted host key value g.world in
        ht_get (os.uninitialised w).0 g.hosts.hashtable host ≡ some backup
        → send_all os (some host) key value g
          ≡ ok (tt, record g { world = posted backup key value (os.uninitialised w).1 })
  unfolding send_all
  send_all-both host backup key value g found =
      let w = posted host key value g.world in
      let w' = (os.uninitialised w).1 in
      ap (λ r. (fails r >>= λ _. behind_first host key value) g)
        (send_to_host-posted host key value g)
      ∙ ap (λ b. (fails (ok (b, record g { world = w' })) >>= λ b'. to_backup b' key value) g) found
      ∙ send_to_host-posted backup key value (record g { world = w' })

  -- With the table that initHost fills when every allocation succeeds, saveValue posts the dumped
  -- object to the writeData URL, with the escaped key, of the server that the hash of the key
  -- chooses, then to that of the server's own backup, and returns 1, if there is a server, the names
  -- are different and ASCII names of two characters or more, the object can be dumped, and no
  -- uninitialised hash value is ULONG_MAX. Where curl_easy_init gives no handle, that one of the two
  -- posts is left out (`posted`).
  pub save_value-replicates :
      (ss : List Server) (garbage : List ℕ) (j : J) (key value : Text) (g : Globals W)
      → 0 < length ss
      → AreDistinct ss
      → AllBelow garbage
      → ((w : W) → (os.uninitialised w).0 < ulong_max)
      → os.json_dumps j ≡ some value
      → (s : Server) × (h : Hosts) × (get_elem? ss (hash os key (length ss)) ≡ some s)
        × (init_host garbage (ips_of ss) ≡ some h)
        × (save_value os (object j) key (record g { hosts = h })
            ≡ ok (
              true,
              record g {
                hosts = h;
                world =
                    posted s.backup key value
                      (os.uninitialised (posted s.master key value g.world)).1;
              },
            ))
  unfolding save_value save_json hash
  save_value-replicates ss garbage j key value g some_server v below unin dumped =
      let i = hash os key (length ss) in
      let inside : i < length ss =
        mod-lt (sum_bytes (md5_digest os.md5_buffer (c_str key))) some_server in
      let (s, chosen) = server_at ss i inside in
      let w1 = posted s.master key value g.world in
      let (h, made, same, counted, found) =
        init_host-backups ss garbage s.master s.is_name (os.uninitialised w1).0 below (unin w1) in
      let gh = record g { hosts = h } in
      let number = counted ∙ length-masters_of ss in
      let lookup =
        lookup_host-found key i s.master gh (omega (arith, number, some_server))
          (ap (hash os key) number)
          (ap (λ l. get_elem? l i) same ∙ get_elem?-masters_of ss i s chosen) in
      let sent =
        send_all-both s.master s.backup key value gh (found ∙ backup_in-own ss i s v chosen) in
      (
        s,
        h,
        chosen,
        made,
        rw dumped (
            ap (λ r. (fails r >>= λ host. send_all os host key value >> pure true) gh) lookup
            ∙ ap (λ r. (fails r >> pure true) gh) sent),
      )
