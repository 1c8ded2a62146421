-- ===== src/Tests/Stores.antt =====
-- A run of `saveValue` of proxy/store.c with the file servers of `initHost`.
use lrued_redis_storage_iceb.Prelude.{
  ℕ, ◌+◌, ◌<◌, length, zero, suc, ◌≡◌, refl, ◌∙◌, ap, sym, true, none, ◌≢◌, some, ◌∷◌, [], arith,
  get_elem?, codes,
}
use lrued_redis_storage_iceb.State.{Globals, Hosts, ok}
use lrued_redis_storage_iceb.Startup.{init_host, initial, start_queue, start_timer, start_up}
use lrued_redis_storage_iceb.Startup.Backups.{Server, ips_of}
use lrued_redis_storage_iceb.Store.{object, hash, make_url, url_room, save_value}
use lrued_redis_storage_iceb.Store.Replicated.{AreDistinct, posted, save_value-replicates}
use lrued_redis_storage_iceb.Store.Room.{make_url-url_room}
use lrued_redis_storage_iceb.HashTable.{ht_get}
use lrued_redis_storage_iceb.Invariant.Reach.{Reached, started}
use lrued_redis_storage_iceb.Invariant.Stored.{Reached-replicates}
use lrued_redis_storage_iceb.Startup.Backups.{masters_of, backup_in, init_host-backups}
use lrued_redis_storage_iceb.Connect.{connect_to_master, listen_to_port, listen_on, serve_master}
use lrued_redis_storage_iceb.Store.{init_curl}
use lrued_redis_storage_iceb.Tests.Backups.{bergen_name, berlin, bergen, bergen_server, servers}
use lrued_redis_storage_iceb.Tests.World.{Log, settings, fresh_queue, quiet, connected}

berlin_first :
    (i : ℕ) (s' : Server) → get_elem? (bergen_server ∷ []) i ≡ some s' → berlin ≢ s'.master
berlin_first zero s' e e' =
    let names : some bergen ≡ some s'.master =
      ap (λ o. elim o [ none ↦ none | some s ↦ some s.master ]) e in
    let clash : berlin ≡ bergen = e' ∙ sym (cc names) in
    ground (arith, ap (λ l. get_elem? l 7) clash)
berlin_first (suc i) s' e e' = ground (arith, e)

pub servers-AreDistinct : AreDistinct servers
servers-AreDistinct = (berlin_first, ((λ i s' e. ground (arith, e)), tt))

save_value-replicates_example :
    (s : Server) × (h : Hosts) × (get_elem? servers (hash quiet (codes "name") 2) ≡ some s)
    × (init_host (3 ∷ 1 ∷ []) (ips_of servers) ≡ some h)
    × (save_value quiet (object (codes "{}")) (codes "name") (record (connected []) { hosts = h })
        ≡ ok (
          true,
          record (connected []) {
            hosts = h;
            world =
                posted quiet s.backup
                  (codes "name")
                  (codes "{}")
                  (posted quiet s.master (codes "name") (codes "{}") []);
          },
        ))
save_value-replicates_example =
    save_value-replicates quiet servers (3 ∷ 1 ∷ []) (codes "{}") (codes "name") (codes "{}")
      (connected []) (omega arith) servers-AreDistinct (omega arith, (omega arith, tt))
      (λ w. omega arith) refl

make_url-url_room_example :
    (length (make_url berlin (codes "name")) + 10 ≡ url_room berlin (codes "name"))
    × (length (make_url berlin (codes "name")) < url_room berlin (codes "name"))
make_url-url_room_example = make_url-url_room berlin (codes "name")

-- The start with the servers above, with whatever table initHost makes of them.
abbrev made :
    (h : Hosts) × (init_host (3 ∷ 1 ∷ []) (ips_of servers) ≡ some h)
    × (h.host_masters ≡ masters_of servers)
    × (h.host_master_num ≡ length (masters_of servers))
    × (ht_get 8 h.hashtable bergen ≡ backup_in servers bergen)
made =
    init_host-backups servers (3 ∷ 1 ∷ []) bergen bergen_name 8 (omega arith, (omega arith, tt))
      (omega arith)

abbrev ready : Globals Log
unfolding initial
ready = record (initial settings made.0 []) {
  master_fd = some 3;
  listen_fd = some 4;
  time_event_id = some 1;
  queue = fresh_queue;
}

ready-Reached : Reached quiet (initial settings made.0 []) ready
unfolding start_up start_queue start_timer init_curl connect_to_master serve_master listen_to_port
    listen_on initial lrued_redis_storage_iceb.CirQueue.init_cir_queue
ready-Reached = started ready true refl

Reached-replicates_example :
    (s : Server) × (get_elem? servers (hash quiet (codes "name") 2) ≡ some s)
    × (save_value quiet (object (codes "{}")) (codes "name") ready
        ≡ ok (
          true,
          record ready {
            world =
                posted quiet s.backup
                  (codes "name")
                  (codes "{}")
                  (posted quiet s.master (codes "name") (codes "{}") []);
          },
        ))
unfolding initial
Reached-replicates_example =
    Reached-replicates quiet servers (3 ∷ 1 ∷ []) settings made.0 [] (codes "{}") (codes "name")
      (codes "{}") made.1 ready-Reached (omega arith) servers-AreDistinct
      (omega arith, (omega arith, tt)) (λ w. omega arith) refl
