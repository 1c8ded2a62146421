-- ===== src/Invariant/Stored.antt =====
-- Storing an object in any state of proxy/main.c in which the event loop waits.
use lrued_redis_storage_iceb.Prelude.{
  ◌<◌, ◌≡◌, ◌∙◌, sym, subst, true, some, List, ℕ, length, get_elem?,
}
use lrued_redis_storage_iceb.HashTable.{ulong_max}
use lrued_redis_storage_iceb.State.{Text, Os, Globals, Settings, Hosts, ok}
use lrued_redis_storage_iceb.Startup.{init_host, initial}
use lrued_redis_storage_iceb.Startup.Backups.{Server, ips_of, AllBelow}
use lrued_redis_storage_iceb.Startup.Conf.{some_inj}
use lrued_redis_storage_iceb.Store.{object, hash, save_value}
use lrued_redis_storage_iceb.Store.Replicated.{AreDistinct, posted, save_value-replicates}
use lrued_redis_storage_iceb.Invariant.Reach.{Reached}
use lrued_redis_storage_iceb.Invariant.Sound.{Reached-same_hosts}

module _ {W J : Type 0} (os : Os W J) where
  -- Whatever the proxy has done since its start with the table that initHost filled when every
  -- allocation succeeded, saveValue posts the dumped object to the writeData URL, with the escaped
  -- key, of the server that the hash of the key chooses and then to that of the server's own backup,
  -- returns 1, and changes nothing else, if there is a server, the servers have different ASCII names
  -- of two characters or more, the object can be dumped, and no uninitialised hash value is ULONG_MAX.
  -- Where curl_easy_init gives no handle, that one of the two posts is left out (`posted`).
  pub Reached-replicates :
      (ss : List Server) (garbage : List ℕ) (conf : Settings) (hosts : Hosts) (w : W)
      {g : Globals W} (j : J) (key value : Text)
      → init_host garbage (ips_of ss) ≡ some hosts
      → Reached os (initial conf hosts w) g
      → 0 < length ss
      → AreDistinct ss
      → AllBelow garbage
      → ((w' : W) → (os.uninitialised w').0 < ulong_max)
      → os.json_dumps j ≡ some value
      → (s : Server) × (get_elem? ss (hash os key (length ss)) ≡ some s)
        × (save_value os (object j) key g
            ≡ ok (
              true,
              record g {
                world =
                    posted os s.backup key value
                      (os.uninitialised (posted os s.master key value g.world)).1;
              },
            ))
  Reached-replicates ss garbage conf hosts w {g} j key value made r some_server v below unin
        dumped =
      let (s, h, chosen, made', runs) =
        save_value-replicates os ss garbage j key value g some_server v below unin dumped in
      let same : h ≡ g.hosts =
        some_inj (sym made' ∙ made) ∙ sym (Reached-same_hosts os conf hosts w r) in
      (
        s,
        chosen,
        subst
            (λ x.
              save_value os (object j) key (record g { hosts = x })
              ≡ ok (
                true,
                record g {
                  hosts = x;
                  world =
                      posted os s.backup key value
                        (os.uninitialised (posted os s.master key value g.world)).1;
                },
              ))
            same runs,
      )
