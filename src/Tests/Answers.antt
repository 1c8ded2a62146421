-- ===== src/Tests/Answers.antt =====
-- A run of proxy/parser.c: an answer that came in two reads.
use lrued_redis_storage_iceb.Prelude.{◌≡◌, refl, [], ◌∷◌, ◌++◌, arith, codes, length}
use lrued_redis_storage_iceb.State.{Text}
use lrued_redis_storage_iceb.Parser.{parse_read_data}
use lrued_redis_storage_iceb.Parser.Number.{value_of}
use lrued_redis_storage_iceb.Parser.Reply.{Item, item_bytes, fields_bytes}
use lrued_redis_storage_iceb.Parser.Answers.{
  Answer, IsAnswer, answer_bytes, answers_bytes, handle_all, parse_read_data-answers,
}
use lrued_redis_storage_iceb.Tests.World.{quiet, connected}

abbrev pub crlf : Text
crlf = 13 ∷ 10 ∷ []

abbrev pub name : Item
name = record { digits = codes "4"; body = codes "name" }

abbrev pub berg : Item
berg = record { digits = codes "04"; body = codes "berg" }

-- `HGETALL` of a hash with one field
abbrev pub answer : Answer
answer = record { digits = codes "2"; fields = record { name = name; content = berg } ∷ [] }

pub answer-IsAnswer : IsAnswer answer
unfolding value_of
answer-IsAnswer = record {
  numeral = omega arith;
  counts = refl;
  fields_ok = (
    record {
      name_ok = record {
        numeral = omega arith;
        counts = refl;
        not_empty = omega arith;
        no_nul = omega arith;
      };
      content_ok = record {
        numeral = omega arith;
        counts = refl;
        not_empty = omega arith;
        no_nul = omega arith;
      };
    },
    tt,
  );
}

abbrev kept : Text
kept = codes "*2" ++ (crlf ++ codes "$4")

abbrev chunk : Text
chunk = crlf ++ (codes "name" ++ (crlf ++ (codes "$04" ++ (crlf ++ (codes "berg" ++ crlf)))))

parse_read_data-answers_example :
    parse_read_data quiet
      (record { len = length chunk; bytes = chunk ++ codes "old" })
      (connected kept)
    ≡ handle_all quiet
        (answer ∷ [])
        (record (connected kept) { buf_slave_answer = record { len = 0; bytes = kept } })
unfolding answers_bytes answer_bytes item_bytes fields_bytes
parse_read_data-answers_example =
    parse_read_data-answers quiet (answer ∷ []) kept chunk [] (codes "old") (connected kept)
      (answer-IsAnswer, tt) refl (omega arith) (omega arith) (omega arith) refl
