-- ===== src/Tests/Simple.antt =====
-- Runs of proxy/parser.c: a short error.
use lrued_redis_storage_iceb.Prelude.{
  ◌≡◌, ◌≢◌, refl, some, [], ◌∷◌, ◌++◌, arith, codes, length, ltb, ◌+◌, if◌then◌else◌,
}
use lrued_redis_storage_iceb.State.{Text, WData, hangs, pure, ◌>>◌}
use lrued_redis_storage_iceb.Parser.{drop_key, parse_simple, parse_read_data}
use lrued_redis_storage_iceb.Parser.Simple.{parse_simple-line}
use lrued_redis_storage_iceb.Parser.Loop.{parse_read_data-ends}
use lrued_redis_storage_iceb.Tests.World.{quiet, connected, fresh_queue-IsValid}

-- What stands behind the minus sign.
abbrev error : Text
error = codes "ERR" ++ (13 ∷ [])

abbrev received : WData
received = record { len = 6; bytes = 45 ∷ (error ++ (10 ∷ [])) }

parse_simple-line_example :
    parse_simple quiet received 0 (connected [])
    ≡ (if ltb 5 (length error + 1)
          then (drop_key quiet >> pure (some (0 + length error + 2)))
          else pure (some (0 + length error + 2)))
        (connected [])
parse_simple-line_example =
    parse_simple-line quiet 45 error 0 received [] (connected []) refl (omega arith) (omega arith)

-- Behind the kept star of an array.
parse_read_data-ends_example : parse_read_data quiet received (connected (codes "*")) ≢ hangs
parse_read_data-ends_example =
    parse_read_data-ends quiet received (connected (codes "*")) fresh_queue-IsValid
