-- ===== src/Tests/Connection.antt =====
-- Runs of proxy/io.c.
use lrued_redis_storage_iceb.Prelude.{◌≡◌, codes}
use lrued_redis_storage_iceb.State.{Globals, ok}
use lrued_redis_storage_iceb.Io.{close_fd}
use lrued_redis_storage_iceb.Io.Close.{IsReset, close_fd-IsReset}
use lrued_redis_storage_iceb.Tests.World.{Log, quiet, connected, fresh_queue-IsValid}

close_fd-IsReset_example :
    (g : Globals Log) × (close_fd quiet (connected (codes "*2")) ≡ ok (tt, g))
    × IsReset (connected (codes "*2")) g
close_fd-IsReset_example = close_fd-IsReset quiet (connected (codes "*2")) fresh_queue-IsValid
