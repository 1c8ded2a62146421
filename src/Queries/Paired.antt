-- ===== src/Queries/Paired.antt =====
-- From the DEL commands to the file servers: the value of each key is stored under that key.
use lrued_redis_storage_iceb.Prelude.{
  ℕ, ◌≤◌, ◌<◌, ◌≡◌, refl, some, List, [], ◌++◌, map, arith, length, ◌∙◌, ap, sym,
}
use lrued_redis_storage_iceb.CirQueue.{CirQueue}
use lrued_redis_storage_iceb.CirQueue.Valid.{IsValid}
use lrued_redis_storage_iceb.CirQueue.Refine.{contents}
use lrued_redis_storage_iceb.State.{
  Text, WData, Os, Run, ok, exits, undefined, hangs, Globals, ◌>>◌, fails,
}
use lrued_redis_storage_iceb.Parser.Number.{NoNul}
use lrued_redis_storage_iceb.Parser.Reply.{max_len}
use lrued_redis_storage_iceb.Parser.Answers.{Answer, answers_bytes, AllAnswers, handle_all}
use lrued_redis_storage_iceb.Parser.Fronts.{AllShort}
use lrued_redis_storage_iceb.Parser.Blind.{with_answer, map_run}
use lrued_redis_storage_iceb.Parser.Stream.{
  Read, AllReads, joined, feed, clean, nothing_kept, feed-answers,
}
use lrued_redis_storage_iceb.LruedQuery.{process_input_buffer}
use lrued_redis_storage_iceb.LruedQuery.Del.{Del, dels_bytes, AllDels, process_input_buffer-dels}
use lrued_redis_storage_iceb.Queries.{with_queue, store_all}
use lrued_redis_storage_iceb.Queries.Stored.{store_all-IsBlind, handle_all-stores}
use lrued_redis_storage_iceb.Queries.Asked.{IsOpen, IsConnected, asked, keys_of, ask_all-open}

-- What is left of the globals without the queue and what is kept of the two texts.
abbrev pub outside : {W : Type 0} → CirQueue Text → Globals W → Globals W
outside q g = record g { queue = q; buf_slave_answer = nothing_kept; buf_master_cmd = nothing_kept }

absorb :
    {W A : Type 0} (f h : Globals W → Globals W) (r : Run (A × Globals W))
    → ((g : Globals W) → h (f g) ≡ h g)
    → map_run h (map_run f r) ≡ map_run h r
unfolding map_run
absorb f h (ok (a, g)) e = ap (λ x. ok (a, x)) (e g)
absorb f h exits e = refl
absorb f h undefined e = refl
absorb f h hangs e = refl

module _ {W J : Type 0} (os : Os W J) (ready : IsOpen os)
    (zeroed : (w : W) → (os.uninitialised w).0 ≡ 0) where
  -- `processInputBuffer` on whole DEL commands of one key each and then `parseReadData` on the reads
  -- of as many or fewer or more whole answers write a query for each key and then store each
  -- answer's object under its key, the first under the first key, and end the process at an answer
  -- without a key. Both connections are there, the queue is valid, nothing waited or was kept before,
  -- at most 4095 keys are asked for, `write` takes what it is given, the byte that the comparison
  -- reads behind `cmp` is a NUL, the commands have no NUL and are below 20480 bytes, and answers and
  -- reads are as in `feed-answers`. The queue and what is kept of the two texts are not compared.
  pub del-answers :
      (ds : List Del) (answers : List Answer) (reads : List Read) (stale : Text) (fd : ℕ)
      (q0 : CirQueue Text) (g : Globals W)
      → AllDels ds
      → NoNul (dels_bytes ds)
      → length (dels_bytes ds) < max_len
      → length ds ≤ 4095
      → AllAnswers answers
      → AllShort answers
      → AllReads reads
      → joined reads ≡ answers_bytes answers
      → IsConnected fd g
      → IsValid g.queue
      → contents g.queue ≡ []
      → g.buf_master_cmd.len ≡ 0
      → g.buf_slave_answer.len ≡ 0
      → map_run (outside q0) (
          (process_input_buffer os
                (record { len = length (dels_bytes ds); bytes = dels_bytes ds ++ stale })
              >> feed os reads)
            g)
        ≡ map_run
            (outside q0)
            (store_all os answers (keys_of ds) (record g { world = asked os fd ds g.world }))
  del-answers ds answers reads stale fd q0 g vd clean_text short few va small fit whole on v
        none_wait no_cmd no_answer =
      let cmd : WData = record { len = 0; bytes = g.buf_master_cmd.bytes } in
      let heard = record g { buf_master_cmd = cmd } in
      let (q, runs, valid, holds) =
        ask_all-open os ready fd ds heard
          (record { master = on.master; to_master = on.to_master; to_slave = on.to_slave }) v
          (omega (arith, ap length none_wait)) in
      let start = record g { world = asked os fd ds g.world } in
      let put : Globals W → Globals W = λ h. record h { queue = q; buf_master_cmd = cmd } in
      let scanned =
        process_input_buffer-dels os ds [] (dels_bytes ds) g.buf_master_cmd.bytes stale g vd refl tt
          clean_text short zeroed
          (ap (λ n. record { len = n; bytes = g.buf_master_cmd.bytes }) no_cmd)
        ∙ runs in
      ap (λ r. map_run (outside q0) ((fails r >> feed os reads) g)) scanned
      ∙ sym (absorb clean (outside q0) (feed os reads (put start)) (λ h. refl))
      ∙ ap (map_run (outside q0))
          (feed-answers os answers reads (put start) va small fit whole no_answer)
      ∙ absorb (with_answer nothing_kept) (outside q0) (handle_all os answers (put start))
          (λ h. refl)
      ∙ sym (absorb (with_queue q0) (outside q0) (handle_all os answers (put start)) (λ h. refl))
      ∙ ap (map_run (outside q0)) (
          handle_all-stores os q0 answers (keys_of ds) (put start) valid
            (holds ∙ ap (λ l. l ++ map some (keys_of ds)) none_wait))
      ∙ absorb (with_queue q0) (outside q0) (store_all os answers (keys_of ds) (put start))
          (λ h. refl)
      ∙ ap (map_run (outside q0)) (
          (store_all-IsBlind os put
              (record { hosts = λ h. refl; world = λ h. refl; store = λ h w. refl }) answers
              (keys_of ds)).blind
            start)
      ∙ absorb put (outside q0) (store_all os answers (keys_of ds) start) (λ h. refl)
