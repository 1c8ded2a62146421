-- ===== src/Invariant/Parsing.antt =====
-- proxy/store.c and proxy/parser.c keep the queue valid.
use lrued_redis_storage_iceb.Prelude.{
  ◌<◌, ℕ, zero, suc, ◌+◌, ◌-◌, arith, Bool, true, false, leb, ltb, Option, none, some,
}
use lrued_redis_storage_iceb.Prelude.Int.{ℤ, pos, negsuc}
use lrued_redis_storage_iceb.CirQueue.{pop_cir_queue}
use lrued_redis_storage_iceb.CirQueue.Refine.{pop_refines}
use lrued_redis_storage_iceb.State.{
  max_read, Text, WData, Os, Run, ok, exits, undefined, hangs, Globals, M, on_queue,
}
use lrued_redis_storage_iceb.HashTable.{ht_get}
use lrued_redis_storage_iceb.Store.{
  Payload, object, null_object, characters, send_to_host, lookup_host, send_all, save_json,
  save_value,
}
use lrued_redis_storage_iceb.Parser.{
  save_to_buf, incomplete, pop_handle, finish_array, parse_array, bulk_body, parse_bulk_string,
  drop_key, parse_simple, find_newline, parse_one, go_on, parse_loop, parse_read_data, number_from,
  merged,
}
use lrued_redis_storage_iceb.Invariant.{
  Core, core, IsInvariant, Settled, Keeps, bind-Keeps, then-Keeps, pure-Keeps, gets-Keeps,
  call-Keeps, change-Keeps, exits-Keeps, undefined-Keeps, hangs-Keeps, if-Keeps, option-Keeps,
  on_queue-Keeps, round-Settled,
}

pub save_to_buf-small :
    (wdata : WData) (start : ℕ) (buf : WData) → (save_to_buf wdata start buf).len < max_read
unfolding save_to_buf
save_to_buf-small wdata start buf = ground arith

module _ {W J : Type 0} (os : Os W J) {P : Core → Type 0} (inv : IsInvariant P) where
  send_to_host-Keeps : (host key value : Text) → Keeps P (send_to_host os host key value)
  unfolding send_to_host Settled
  send_to_host-Keeps host key value = record { keeps = λ g v. ground arith }

  lookup_host-Keeps : (key : Text) → Keeps P (lookup_host os key)
  unfolding Settled
  lookup_host-Keeps key = record { keeps = λ g v. ground arith }

  send_all-Keeps : (host : Option Text) (key value : Text) → Keeps P (send_all os host key value)
  unfolding send_all
  send_all-Keeps none key value = pure-Keeps tt
  send_all-Keeps (some host) key value = then-Keeps _ _ (send_to_host-Keeps host key value) (
      bind-Keeps _ _ (call-Keeps os.uninitialised) (λ garbage.
        bind-Keeps _ _ (gets-Keeps (λ g. ht_get garbage g.hosts.hashtable host)) (λ backup.
          option-Keeps backup _ _ (pure-Keeps tt) (λ b. send_to_host-Keeps b key value))))

  save_json-Keeps : (value : Option Text) (key : Text) → Keeps P (save_json os value key)
  unfolding save_json
  save_json-Keeps none key = pure-Keeps false
  save_json-Keeps (some value) key =
      bind-Keeps _ _ (lookup_host-Keeps key)
        (λ host. then-Keeps _ _ (send_all-Keeps host key value) (pure-Keeps true))

  save_value-Keeps : (payload : Payload J) (key : Text) → Keeps P (save_value os payload key)
  unfolding save_value
  save_value-Keeps (object j) key = save_json-Keeps (os.json_dumps j) key
  save_value-Keeps null_object key = exits-Keeps Bool
  save_value-Keeps (characters s) key = undefined-Keeps Bool

  incomplete-Keeps : (wdata : WData) (start : ℕ) → Keeps P (incomplete os wdata start)
  unfolding incomplete Settled
  incomplete-Keeps wdata start = record {
    keeps = λ g v. inv.with_answers (core g) _ v (save_to_buf-small wdata start g.buf_slave_answer);
  }

  pop-Keeps : Keeps P (on_queue {W = W} pop_cir_queue)
  pop-Keeps =
      on_queue-Keeps inv pop_cir_queue
        (λ q v. let (out, q', runs, valid, holds) = pop_refines v in (out, q', runs, valid))

  pop_handle-Keeps : (payload : Payload J) → Keeps P (pop_handle os payload)
  unfolding pop_handle
  pop_handle-Keeps payload = bind-Keeps _ _ pop-Keeps (λ e.
      option-Keeps e _ _ (exits-Keeps (Unit {0}))
        (λ key. bind-Keeps _ _ (save_value-Keeps payload key) (λ stored. pure-Keeps tt)))

  finish_array-Keeps :
      (wdata : WData) (start : ℕ) (r : Run (Option (Option ℕ × J)))
      → Keeps P (finish_array os wdata start r)
  unfolding finish_array
  finish_array-Keeps wdata start (ok none) = incomplete-Keeps wdata start
  finish_array-Keeps wdata start (ok (some (index, j))) =
      then-Keeps _ _ (pop_handle-Keeps (object j)) (pure-Keeps index)
  finish_array-Keeps wdata start exits = exits-Keeps (Option ℕ)
  finish_array-Keeps wdata start undefined = undefined-Keeps (Option ℕ)
  finish_array-Keeps wdata start hangs = hangs-Keeps (Option ℕ)

  parse_array-Keeps : (wdata : WData) (start : ℕ) → Keeps P (parse_array os wdata start)
  unfolding parse_array
  parse_array-Keeps wdata start = if-Keeps _ _ _ (incomplete-Keeps wdata start) (
      option-Keeps (number_from wdata (start + 1)) _ _ (undefined-Keeps (Option ℕ))
        (λ n. if-Keeps _ _ _ (incomplete-Keeps wdata start) (finish_array-Keeps wdata start _)))

  bulk_body-Keeps :
      (wdata : WData) (start index : ℕ) (len : ℤ) → Keeps P (bulk_body os wdata start index len)
  unfolding bulk_body
  bulk_body-Keeps wdata start index (negsuc n) = undefined-Keeps (Option ℕ)
  bulk_body-Keeps wdata start index (pos len) = if-Keeps _ _ _ (undefined-Keeps (Option ℕ)) (
      if-Keeps _ _ _ (incomplete-Keeps wdata start)
        (then-Keeps _ _ (pop_handle-Keeps _) (pure-Keeps (some (index + len + 4)))))

  parse_bulk_string-Keeps : (wdata : WData) (start : ℕ) → Keeps P (parse_bulk_string os wdata start)
  unfolding parse_bulk_string
  parse_bulk_string-Keeps wdata start =
      option-Keeps (number_from wdata (start + 1)) _ _ (undefined-Keeps (Option ℕ)) (λ n.
        if-Keeps (leb wdata.len n.1) _ _ (incomplete-Keeps wdata start)
          (bulk_body-Keeps wdata start n.1 n.0))

  drop_key-Keeps : Keeps P (drop_key os)
  unfolding drop_key
  drop_key-Keeps = bind-Keeps _ _ pop-Keeps (λ e. pure-Keeps tt)

  parse_simple-Keeps : (wdata : WData) (start : ℕ) → Keeps P (parse_simple os wdata start)
  unfolding parse_simple
  parse_simple-Keeps wdata start =
      option-Keeps (find_newline os (wdata.len - (start + 1)) wdata (start + 1)) _ _
        (incomplete-Keeps wdata start)
        (λ index.
          let taken = then-Keeps _ _ drop_key-Keeps (pure-Keeps (some (index + 1))) in
          if-Keeps _ _ _ taken (if-Keeps _ _ _ taken (pure-Keeps (some (index + 1)))))

  parse_one-Keeps : (wdata : WData) (index : ℕ) → Keeps P (parse_one os wdata index)
  unfolding parse_one
  parse_one-Keeps wdata index = if-Keeps _ _ _ (parse_array-Keeps wdata index) (
      if-Keeps _ _ _ (parse_bulk_string-Keeps wdata index)
        (if-Keeps _ _ _ (parse_simple-Keeps wdata index) (pure-Keeps none)))

  pub go_on-Settled :
      (r : Run (Option ℕ × Globals W)) (rest : ℕ → M W (Unit {0}))
      → Settled P r
      → ((i : ℕ) (g : Globals W) → P (core g) → Settled P (rest i g))
      → Settled P (go_on os r rest)
  unfolding go_on Settled
  go_on-Settled (ok (none, g)) rest s k = s
  go_on-Settled (ok (some index, g)) rest s k = k index g s
  go_on-Settled exits rest s k = tt
  go_on-Settled undefined rest s k = tt
  go_on-Settled hangs rest s k = tt

  parse_loop-Settled :
      (rounds : ℕ) (wdata : WData) (index : ℕ) (g : Globals W)
      → P (core g)
      → Settled P (parse_loop os rounds wdata index g)
  unfolding parse_loop Settled
  parse_loop-Settled zero wdata index g v = tt
  parse_loop-Settled (suc rounds) wdata index g v = round-Settled P (ltb index wdata.len) g _ v (
      go_on-Settled (parse_one os wdata index g) (parse_loop os rounds wdata)
        ((parse_one-Keeps wdata index).keeps g v) (parse_loop-Settled rounds wdata))

  pub parse_read_data-Keeps : (wdata : WData) → Keeps P (parse_read_data os wdata)
  unfolding parse_read_data
  parse_read_data-Keeps wdata = bind-Keeps _ _ (gets-Keeps (λ g. g.buf_slave_answer)) (λ buf.
      then-Keeps _ _
        (change-Keeps (λ g. record g { buf_slave_answer = record (g.buf_slave_answer) { len = 0 } })
          (λ g v. inv.with_answers (core g) _ v (omega arith)))
        (record { keeps = parse_loop-Settled _ (merged buf wdata) 0 }))
