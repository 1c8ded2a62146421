-- ===== src/Tests/Relay.antt =====
-- Runs of proxy/io.c, proxy/lrued_query.c and proxy/read_handler.c over a slow connection.
use lrued_redis_storage_iceb.Prelude.{
  ◌≡◌, ◌≢◌, refl, some, strncpy, false, [], ◌∷◌, arith, codes, ◌++◌,
}
use lrued_redis_storage_iceb.State.{
  Text, Os, Globals, eagain, hangs, ok, ◌>>◌, running, Phase, sync_start, sync,
}
use lrued_redis_storage_iceb.Io.{write_data}
use lrued_redis_storage_iceb.Io.Delivery.{budget, write_data-sends}
use lrued_redis_storage_iceb.LruedQuery.{hgetall, query_key}
use lrued_redis_storage_iceb.LruedQuery.Query.{Asked, query_key-delivers, query_key-injects}
use lrued_redis_storage_iceb.Tests.World.{Log, quiet, connected, fresh_queue-IsValid}
use lrued_redis_storage_iceb.ReadHandler.{sync_payload, read_from_slave, read_from_master}
use lrued_redis_storage_iceb.ReadHandler.Upstream.{sync_command, read_from_slave-forwards}
use lrued_redis_storage_iceb.ReadHandler.Stuck.{sync_payload-stuck}
use lrued_redis_storage_iceb.ReadHandler.Sync.{read_from_master-syncs}
use lrued_redis_storage_iceb.Tests.Wire.{Wire, wired, wire_link, syncing, announced, asking}

write_data-sends_example :
    (w : Wire) × (write_data wired (some 5) (codes "SYNC") syncing
      ≡ ok (some 4, record syncing { world = w }))
    × (w.arrived ≡ [] ++ codes "SYNC")
    × (w.coming ≡ syncing.world.coming)
unfolding budget
write_data-sends_example =
    write_data-sends wired wire_link 3 (codes "SYNC") syncing refl (omega arith)

read_from_master-syncs_example :
    (w : Wire) × ((read_from_master wired (some 3) >> read_from_master wired (some 3)) announced
      ≡ ok (tt, record announced { bulk_size = 0; phase = running; world = w }))
    × (w.arrived ≡ [] ++ ((10 ∷ 36 ∷ 53 ∷ 13 ∷ 10 ∷ []) ++ (1 ∷ 2 ∷ 3 ∷ 4 ∷ 5 ∷ [])))
    × (w.coming ≡ 42 ∷ 43 ∷ [])
unfolding budget
read_from_master-syncs_example =
    read_from_master-syncs wired wire_link 3 1 36 (53 ∷ 13 ∷ []) (1 ∷ 2 ∷ 3 ∷ 4 ∷ 5 ∷ [])
      (42 ∷ 43 ∷ []) announced (λ e. omega (arith, e))
      ((λ e. omega (arith, e)), ((λ e. omega (arith, e)), ((λ e. omega (arith, e)), tt)))
      (omega arith) refl (omega arith) (omega arith) (omega arith) refl refl refl refl

query_key-delivers_example :
    Asked wired wire_link
      (codes "hgetall " ++ (codes "berg" ++ (13 ∷ 10 ∷ [])))
      (codes "berg")
      asking
      (query_key wired 4 (codes "berg") asking)
unfolding budget
query_key-delivers_example =
    query_key-delivers wired wire_link 3 (codes "berg") asking fresh_queue-IsValid (omega arith)
      (omega arith) refl refl (omega arith)

-- A DEL of `a\r\nflushall`
query_key-injects_example :
    Asked wired wire_link
      (hgetall 1 (codes "a") ++ (codes "flushall" ++ (13 ∷ 10 ∷ [])))
      (codes "a" ++ (13 ∷ 10 ∷ codes "flushall"))
      asking
      (query_key wired 11 (codes "a" ++ (13 ∷ 10 ∷ codes "flushall")) asking)
unfolding budget hgetall strncpy
query_key-injects_example =
    query_key-injects wired wire_link 3 (codes "a") (codes "flushall") asking fresh_queue-IsValid
      (omega arith) (omega arith) (omega arith) refl refl (omega arith)

-- A world in which every connection was closed from the other side.
abbrev closed : Os Log Text
closed = record quiet { read = λ fd size w. (record { got = some []; errno = eagain }, w) }

abbrev in_payload : Globals Log
in_payload = record (connected []) { bulk_size = 5 }

sync_payload-stuck_example : sync_payload closed 1000 (some 3) in_payload ≡ hangs
sync_payload-stuck_example =
    sync_payload-stuck closed 3 1000 3 in_payload refl (omega arith) (omega arith)
      (λ size w. (refl, refl))

-- The ends the other way round: the slave's PSYNC comes two bytes at a time.
abbrev upstream : Globals Wire
upstream = record syncing {
  master_fd = some 5;
  world = record { arrived = []; coming = codes "PSYNC"; is_busy = false };
}

read_from_slave-forwards_example :
    (p : Phase) × (w : Wire) × (read_from_slave wired (some 3) upstream
      ≡ ok (tt, record upstream { phase = p; world = w }))
    × (w.arrived ≡ [] ++ codes "PS")
    × (codes "PS" ≡ sync_command → p ≡ sync_start)
    × (codes "PS" ≢ sync_command → p ≡ sync)
unfolding budget
read_from_slave-forwards_example =
    read_from_slave-forwards wired wire_link 80 (83 ∷ []) upstream (omega arith) refl refl
      (omega arith)
