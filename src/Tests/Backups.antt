-- ===== src/Tests/Backups.antt =====
-- A run of `initHost` of proxy/main.c.
use lrued_redis_storage_iceb.Prelude.{◌≡◌, refl, some, List, [], ◌∷◌, arith, codes, length}
use lrued_redis_storage_iceb.HashTable.{ht_get}
use lrued_redis_storage_iceb.HashTable.Lookup.{IsName}
use lrued_redis_storage_iceb.State.{Text, Hosts}
use lrued_redis_storage_iceb.Startup.{init_host}
use lrued_redis_storage_iceb.Startup.Backups.{
  Server, ips_of, masters_of, backup_in, init_host-backups,
}

abbrev pub berlin : Text
berlin = codes "10.0.0.4"

abbrev pub bergen : Text
bergen = codes "10.0.0.6"

pub berlin_name : IsName berlin
berlin_name = record {
  front = codes "10.0.0";
  before_last = 46;
  last = 52;
  spelled = refl;
  ascii = omega arith;
}

pub bergen_name : IsName bergen
bergen_name = record {
  front = codes "10.0.0";
  before_last = 46;
  last = 54;
  spelled = refl;
  ascii = omega arith;
}

abbrev pub bergen_server : Server
bergen_server = record { master = bergen; backup = codes "10.0.0.7"; is_name = bergen_name }

abbrev pub servers : List Server
servers =
    record { master = berlin; backup = codes "10.0.0.5"; is_name = berlin_name }
    ∷ bergen_server
    ∷ []

init_host-backups_example :
    (h : Hosts) × (init_host (3 ∷ 1 ∷ []) (ips_of servers) ≡ some h)
    × (h.host_masters ≡ masters_of servers)
    × (h.host_master_num ≡ length (masters_of servers))
    × (ht_get 8 h.hashtable bergen ≡ backup_in servers bergen)
init_host-backups_example =
    init_host-backups servers (3 ∷ 1 ∷ []) bergen bergen_name 8 (omega arith) (omega arith)
