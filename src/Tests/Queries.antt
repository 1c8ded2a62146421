-- ===== src/Tests/Queries.antt =====
-- Runs of proxy/read_handler.c, proxy/lrued_query.c and proxy/parser.c: a DEL, and the answer to its
-- query in two reads.
use lrued_redis_storage_iceb.Prelude.{
  ◌≡◌, refl, some, map, [], ◌∷◌, ◌++◌, arith, codes, length, List,
}
use lrued_redis_storage_iceb.State.{Text, Os, ok, ◌>>◌}
use lrued_redis_storage_iceb.Parser.Reply.{item_bytes, fields_bytes}
use lrued_redis_storage_iceb.Parser.Answers.{answer_bytes, answers_bytes}
use lrued_redis_storage_iceb.Parser.Blind.{map_run}
use lrued_redis_storage_iceb.Parser.Stream.{Read, joined, feed}
use lrued_redis_storage_iceb.CirQueue.{CirQueue}
use lrued_redis_storage_iceb.CirQueue.Valid.{IsValid}
use lrued_redis_storage_iceb.CirQueue.Refine.{contents}
use lrued_redis_storage_iceb.ReadHandler.{read_from_master}
use lrued_redis_storage_iceb.Queries.Forwarded.{read_from_master-asks_first}
use lrued_redis_storage_iceb.LruedQuery.{process_input_buffer}
use lrued_redis_storage_iceb.LruedQuery.Del.{del_bytes, dels_bytes}
use lrued_redis_storage_iceb.Queries.{store_all}
use lrued_redis_storage_iceb.Queries.Asked.{IsOpen, asked, keys_of}
use lrued_redis_storage_iceb.Queries.Paired.{outside, del-answers}
use lrued_redis_storage_iceb.Tests.Answers.{answer, answer-IsAnswer, crlf}
use lrued_redis_storage_iceb.Tests.Commands.{kept, chunk, command, command-IsDel}
use lrued_redis_storage_iceb.Tests.World.{
  Log, quiet, connected, with_command, fresh_queue, fresh_queue-IsValid,
}

quiet-IsOpen : IsOpen quiet
quiet-IsOpen = record { takes_all = λ fd text w. refl; two_rounds = omega arith }

abbrev reads : List Read
reads =
    record { got = codes "*2" ++ (13 ∷ []); stale = [] }
    ∷ record {
      got =
          10
          ∷ (codes "$4"
              ++ (crlf
                  ++ (codes "name"
                      ++ (crlf ++ (codes "$04" ++ (crlf ++ (codes "berg" ++ crlf)))))));
      stale = codes "old";
    }
    ∷ []

del-answers_example :
    map_run (outside fresh_queue) (
      (process_input_buffer quiet (record {
        len = length (dels_bytes (command ∷ []));
        bytes = dels_bytes (command ∷ []) ++ codes "stale";
      })
          >> feed quiet reads)
        (connected []))
    ≡ map_run (outside fresh_queue) (
        store_all quiet
          (answer ∷ [])
          (keys_of (command ∷ []))
          (record (connected []) { world = asked quiet 6 (command ∷ []) [] }))
unfolding joined answers_bytes answer_bytes item_bytes fields_bytes dels_bytes del_bytes
del-answers_example =
    del-answers quiet quiet-IsOpen (λ w. refl) (command ∷ []) (answer ∷ []) reads (codes "stale") 6
      fresh_queue (connected []) (command-IsDel, tt) (omega arith) (omega arith) (omega arith)
      (answer-IsAnswer, tt) (omega arith, tt) (omega arith, (omega arith, tt)) refl
      (record { master = 3; to_master = refl; to_slave = refl }) fresh_queue-IsValid refl refl refl

-- A world in which the master sends the rest of a DEL.
abbrev deleting : Os Log Text
deleting = record quiet { read = λ fd size w. (record { got = some chunk; errno = 0 }, w) }

deleting-IsOpen : IsOpen deleting
deleting-IsOpen = record { takes_all = λ fd text w. refl; two_rounds = omega arith }

read_from_master-asks_first_example :
    (q : CirQueue Text) × (read_from_master deleting (some 3) (with_command kept)
      ≡ ok (
        tt,
        record (with_command kept) {
          queue = q;
          buf_master_cmd = record { len = 0; bytes = kept ++ [] };
          world = (deleting.write 5 chunk (asked deleting 6 (command ∷ []) [])).1;
        },
      ))
    × IsValid q
    × (contents q ≡ contents (with_command kept).queue ++ map some (keys_of (command ∷ [])))
unfolding dels_bytes del_bytes
read_from_master-asks_first_example =
    read_from_master-asks_first deleting deleting-IsOpen (command ∷ []) kept
      (codes "L" ++ (crlf ++ (codes "$4" ++ (crlf ++ (codes "berg" ++ crlf))))) [] 3 6 5 69
      (with_command kept) (λ w. refl) refl
      (record { master = 3; to_master = refl; to_slave = refl }) refl refl (command-IsDel, tt) refl
      (omega arith) (omega arith) (omega arith) refl fresh_queue-IsValid (omega arith)
