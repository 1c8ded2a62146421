-- ===== src/Tests/Loop.antt =====
-- Runs of proxy/main.c: the start, and one turn of the event loop.
use lrued_redis_storage_iceb.Prelude.{
  arith, ◌+◌, ◌++◌, ◌≡◌, ◌≤◌, refl, true, some, List, [], ◌∷◌, length, codes,
}
use lrued_redis_storage_iceb.CirQueue.{que_size}
use lrued_redis_storage_iceb.CirQueue.Valid.{IsValid}
use lrued_redis_storage_iceb.CirQueue.Fifo.{Op, push, pop, top, run_fifo}
use lrued_redis_storage_iceb.CirQueue.Refine.{contents, run_queue}
use lrued_redis_storage_iceb.State.{Text, WData, Os, Globals, start, sync_start}
use lrued_redis_storage_iceb.Connect.{connect_to_master, listen_to_port, listen_on, serve_master}
use lrued_redis_storage_iceb.Event.{time_event, run_with_period}
use lrued_redis_storage_iceb.Startup.{initial, start_queue, start_timer, start_up}
use lrued_redis_storage_iceb.Store.{init_curl}
use lrued_redis_storage_iceb.Invariant.Reach.{
  master_ready, timer, Reached, started, turned, turn, Reached-fifo,
}
use lrued_redis_storage_iceb.Invariant.Sound.{Joins, Reached-merged}
use lrued_redis_storage_iceb.Invariant.Phases.{Step}
use lrued_redis_storage_iceb.Invariant.Turns.{turn-Step}
use lrued_redis_storage_iceb.Io.{reconnect, classify, read_from, read_data, write_to, write_data}
use lrued_redis_storage_iceb.ReadHandler.{received, to_slave, on_start, on_data, read_from_master}
use lrued_redis_storage_iceb.Tests.World.{Log, quiet, settings, hosts, fresh_queue}

abbrev first : Globals Log
unfolding initial
first = initial settings hosts []

-- After `main` has come to `aeMain`.
abbrev ready : Globals Log
unfolding initial
ready = record (initial settings hosts []) {
  master_fd = some 3;
  listen_fd = some 4;
  time_event_id = some 1;
  queue = fresh_queue;
}

abbrev ticked : Globals Log
ticked = record ready { cronloops = 1 }

ready-Reached : Reached quiet first ready
unfolding start_up start_queue start_timer init_curl connect_to_master serve_master listen_to_port
    listen_on initial lrued_redis_storage_iceb.CirQueue.init_cir_queue
ready-Reached = started ready true refl

ticked-Reached : Reached quiet first ticked
unfolding turn time_event run_with_period initial
ticked-Reached = turned timer ready ticked ready-Reached refl

abbrev calls : List (Op Text)
calls = push (some (codes "berg")) ∷ top ∷ pop ∷ pop ∷ []

Reached-fifo_example :
    IsValid ticked.queue
    × (length (contents ticked.queue) ≤ 4095)
    × (run_queue ticked.queue calls ≡ some (run_fifo (contents ticked.queue) calls))
Reached-fifo_example = Reached-fifo quiet calls ticked-Reached

-- What was read next.
abbrev chunk : WData
chunk = record { len = 3; bytes = codes "*2" ++ (13 ∷ []) }

Reached-merged_example :
    (ticked.conf ≡ settings)
    × (ticked.hosts ≡ hosts)
    × Joins ticked.buf_master_cmd chunk
    × Joins ticked.buf_slave_answer chunk
unfolding initial first
Reached-merged_example =
    Reached-merged quiet settings hosts [] chunk ticked-Reached (omega arith) (omega arith, tt)
      (omega arith, tt) (omega arith, (omega arith, (omega arith, (omega arith, tt))))

-- A world in which the master answers PSYNC.
abbrev psync : Text
psync = codes "+FULLRESYNC 8de1787ba490483314a4d30f1c628bc5025eb761 2443808505" ++ (13 ∷ 10 ∷ [])

abbrev answering : Os Log Text
answering = record quiet { read = λ fd size w. (record { got = some psync; errno = 0 }, w) }

abbrev answered : Globals Log
answered = record ready { phase = sync_start }

answering-Reached : Reached answering first ready
unfolding start_up start_queue start_timer init_curl connect_to_master serve_master listen_to_port
    listen_on initial lrued_redis_storage_iceb.CirQueue.init_cir_queue
answering-Reached = started ready true refl

turn-Step_example : Step (master_ready (some 3)) start sync_start
unfolding turn read_from_master on_data on_start received read_data reconnect read_from classify
    to_slave write_data write_to initial lrued_redis_storage_iceb.Prelude.strncpy
    lrued_redis_storage_iceb.Prelude.strcmp
turn-Step_example =
    turn-Step answering {g' = answered} (master_ready (some 3)) answering-Reached refl
