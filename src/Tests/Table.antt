-- ===== src/Tests/Table.antt =====
-- Runs of proxy/hash_table.c.
use lrued_redis_storage_iceb.Prelude.{ℕ, ◌≡◌, refl, ◌*◌, ◌+◌, some, List, arith, codes, ◌≢◌, true}
use lrued_redis_storage_iceb.HashTable.{HashTable, ht_hash, ht_get, ht_set, ht_create}
use lrued_redis_storage_iceb.HashTable.Chain.{all_succeed}
use lrued_redis_storage_iceb.HashTable.Hash.{ht_hash_last_two}
use lrued_redis_storage_iceb.HashTable.Lookup.{
  IsTable, IsName, stored, ht_set_stores, ht_get-ht_set_self, ht_get-ht_set_ne, ht_create-IsTable,
}

made : (t : HashTable) × (ht_create true true 65536 ≡ some t) × IsTable t
made = ht_create-IsTable 65536 refl

abbrev server : List ℕ
server = codes "10.0.0.4"

abbrev other : List ℕ
other = codes "10.0.1.4"

server_name : IsName server
server_name = record {
  front = codes "10.0.0";
  before_last = 46;
  last = 52;
  spelled = refl;
  ascii = omega arith;
}

other_name : IsName other
other_name = record {
  front = codes "10.0.1";
  before_last = 46;
  last = 52;
  spelled = refl;
  ascii = omega arith;
}

differ : server ≢ other
differ e = ground arith

abbrev backup : List ℕ
backup = codes "10.0.0.5"

ht_hash_last_two_example : ht_hash 123456789 made.0 server ≡ 46 * 256 + 52
ht_hash_last_two_example =
    ht_hash_last_two 123456789 made.0 (codes "10.0.0") 46 52 made.2.bins (omega arith) (omega arith)

ht_set_stores_example :
    ht_set all_succeed 5 made.0 server backup ≡ some (stored made.0 server_name backup)
ht_set_stores_example = ht_set_stores server_name 5 made.0 backup made.2 (omega arith)

ht_get-ht_set_self_example :
    (t : HashTable) × (ht_set all_succeed 5 made.0 server backup ≡ some t)
    × IsTable t
    × (ht_get 77 t server ≡ some backup)
ht_get-ht_set_self_example =
    ht_get-ht_set_self server_name 5 77 made.0 backup made.2 (omega arith) (omega arith)

ht_get-ht_set_ne_example :
    (t : HashTable) × (ht_set all_succeed 5 made.0 server backup ≡ some t)
    × (ht_get 77 t other ≡ ht_get 9 made.0 other)
ht_get-ht_set_ne_example =
    ht_get-ht_set_ne server_name other_name 5 77 9 made.0 backup made.2 (omega arith) (omega arith)
      (omega arith) differ
