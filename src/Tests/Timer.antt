-- ===== src/Tests/Timer.antt =====
-- Runs of proxy/event.c.
use lrued_redis_storage_iceb.Prelude.{ℕ, ◌+◌, ◌≤◌, ◌≡◌, refl, none, some, false, [], ◌∷◌}
use lrued_redis_storage_iceb.State.{Os, Globals, ok}
use lrued_redis_storage_iceb.Connect.{connect_to_master}
use lrued_redis_storage_iceb.Event.{time_event}
use lrued_redis_storage_iceb.Event.Timer.{
  timers, reconnecting, timer-reconnects, connect_to_master-stuck,
}
use lrued_redis_storage_iceb.State.{Text}
use lrued_redis_storage_iceb.Tests.World.{Log, quiet, connected}

abbrev alone : Globals Log
alone = record (connected []) { master_fd = none; cronloops = 13 }

-- A world whose event loop registers nothing, and in which each close is noted.
abbrev unwilling : Os Log Text
unwilling = record quiet {
  close = λ fd w. (fd ∷ []) ∷ w;
  create_file_event = λ fd handler w. (false, w);
}

timer-reconnects_example :
    (k : ℕ) × (k ≤ 9)
    × (timers quiet k alone ≡ ok (tt, record alone { cronloops = 13 + k }))
    × (time_event quiet (record alone { cronloops = 13 + k })
        ≡ reconnecting quiet (record alone { cronloops = 13 + k }))
timer-reconnects_example = timer-reconnects quiet alone refl

connect_to_master-stuck_example :
    (g' : Globals Log) × (connect_to_master unwilling alone ≡ ok (false, g'))
    × (g'.master_fd ≡ some 3)
    × (g'.world ≡ (3 ∷ []) ∷ [])
    × (timers unwilling 1000 g' ≡ ok (tt, record g' { cronloops = g'.cronloops + 1000 }))
connect_to_master-stuck_example = connect_to_master-stuck unwilling alone 3 [] refl refl 1000
