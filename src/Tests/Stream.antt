-- ===== src/Tests/Stream.antt =====
-- A run of proxy/parser.c: two answers that came in four reads.
use lrued_redis_storage_iceb.Prelude.{◌≡◌, refl, [], ◌∷◌, ◌++◌, arith, codes, List}
use lrued_redis_storage_iceb.Parser.Reply.{item_bytes, fields_bytes}
use lrued_redis_storage_iceb.Parser.Answers.{Answer, answer_bytes, answers_bytes, handle_all}
use lrued_redis_storage_iceb.Parser.Blind.{with_answer, map_run}
use lrued_redis_storage_iceb.Parser.Stream.{Read, joined, clean, nothing_kept, feed, feed-answers}
use lrued_redis_storage_iceb.Tests.Answers.{answer, answer-IsAnswer, crlf}
use lrued_redis_storage_iceb.Tests.World.{quiet, connected}

abbrev answers : List Answer
answers = answer ∷ answer ∷ []

-- The first cut is in a number, the second between the answers, the third behind a `\r`.
abbrev reads : List Read
reads =
    record { got = codes "*"; stale = [] }
    ∷ record {
      got =
          codes "2"
          ++ (crlf
              ++ (codes "$4"
                  ++ (crlf
                      ++ (codes "name"
                          ++ (crlf ++ (codes "$04" ++ (crlf ++ (codes "berg" ++ crlf))))))));
      stale = codes "old";
    }
    ∷ record { got = codes "*2" ++ (13 ∷ []); stale = codes "older" }
    ∷ record {
      got =
          10
          ∷ (codes "$4"
              ++ (crlf
                  ++ (codes "name"
                      ++ (crlf ++ (codes "$04" ++ (crlf ++ (codes "berg" ++ crlf)))))));
      stale = [];
    }
    ∷ []

feed-answers_example :
    map_run clean (feed quiet reads (connected []))
    ≡ map_run (with_answer nothing_kept) (handle_all quiet answers (connected []))
unfolding joined answers_bytes answer_bytes item_bytes fields_bytes
feed-answers_example =
    feed-answers quiet answers reads (connected []) (answer-IsAnswer, (answer-IsAnswer, tt))
      (omega arith, (omega arith, tt))
      (omega arith, (omega arith, (omega arith, (omega arith, tt)))) refl refl
