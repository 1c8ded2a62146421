-- ===== src/Tests/Commands.antt =====
-- Runs of proxy/lrued_query.c: a DEL that came in two reads.
use lrued_redis_storage_iceb.Prelude.{
  ◌≡◌, ◌≢◌, ◌+◌, ap, get_elem?, strncpy, refl, [], ◌∷◌, ◌++◌, arith, codes, length,
}
use lrued_redis_storage_iceb.State.{hangs, Text, WData, ok, ◌>>◌}
use lrued_redis_storage_iceb.LruedQuery.{process_input_buffer}
use lrued_redis_storage_iceb.LruedQuery.Del.{
  Del, IsDel, del_bytes, dels_bytes, ask_all, process_input_buffer-dels,
}
use lrued_redis_storage_iceb.LruedQuery.Cut.{process_input_buffer-loses_del}
use lrued_redis_storage_iceb.LruedQuery.Rounds.{process_input_buffer-ends}
use lrued_redis_storage_iceb.Parser.Number.{value_of}
use lrued_redis_storage_iceb.Tests.World.{fresh_queue-IsValid, quiet, connected, with_command}

-- `DEL berg`
abbrev pub command : Del
command = record { digits = codes "4"; key = codes "berg" }

pub command-IsDel : IsDel command
unfolding value_of
command-IsDel = record {
  numeral = omega arith;
  counts = refl;
  not_empty = omega arith;
  no_nul = omega arith;
}

abbrev pub kept : Text
kept = codes "*2" ++ (13 ∷ 10 ∷ codes "$3" ++ (13 ∷ 10 ∷ codes "D"))

abbrev pub chunk : Text
chunk = codes "EL" ++ (13 ∷ 10 ∷ codes "$4" ++ (13 ∷ 10 ∷ codes "berg" ++ (13 ∷ 10 ∷ [])))

process_input_buffer-dels_example :
    process_input_buffer quiet
      (record { len = length chunk; bytes = chunk ++ codes "old" })
      (with_command kept)
    ≡ ask_all quiet
        (command ∷ [])
        (record (with_command kept) { buf_master_cmd = record { len = 0; bytes = kept } })
unfolding dels_bytes del_bytes
process_input_buffer-dels_example =
    process_input_buffer-dels quiet (command ∷ []) kept chunk [] (codes "old") (with_command kept)
      (command-IsDel, tt) refl (omega arith) (omega arith) (omega arith) (λ w. refl) refl

-- The end of a command before the DEL, in the first read.
abbrev before : Text
before = codes "value" ++ (13 ∷ 10 ∷ [])

-- The DEL without its star.
abbrev cut : Text
cut = codes "2" ++ (13 ∷ 10 ∷ codes "$3" ++ (13 ∷ 10 ∷ codes "D"))

process_input_buffer-loses_del_example :
    (process_input_buffer quiet
          (record { len = length before + 1 + length cut; bytes = before ++ (42 ∷ (cut ++ [])) })
        >> process_input_buffer quiet (record { len = length chunk; bytes = chunk ++ codes "old" }))
      (connected [])
    ≡ ok (tt, connected [])
unfolding del_bytes strncpy
process_input_buffer-loses_del_example =
    process_input_buffer-loses_del quiet command before cut chunk [] (codes "old") (connected [])
      refl (omega arith) (omega arith) (omega arith) (omega arith)
      (λ e. ground (arith, ap (λ l. get_elem? l 9) e)) refl

abbrev whole_read : WData
whole_read = record { len = length before + length kept; bytes = before ++ kept }

process_input_buffer-ends_example : process_input_buffer quiet whole_read (connected []) ≢ hangs
process_input_buffer-ends_example =
    process_input_buffer-ends quiet
      (record { takes_all = λ fd text w. refl; two_rounds = omega arith }) whole_read (connected [])
      fresh_queue-IsValid
