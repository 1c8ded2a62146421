-- ===== src/Invariant/Commands.antt =====
-- proxy/lrued_query.c keeps the queue valid.
use lrued_redis_storage_iceb.Prelude.{
  arith, ℕ, zero, suc, ◌+◌, ◌-◌, false, Option, none, some, ltb, ◌==◌,
}
use lrued_redis_storage_iceb.Prelude.Int.{ℤ, pos, negsuc}
use lrued_redis_storage_iceb.CirQueue.{is_full_cir_queue, push_cir_queue}
use lrued_redis_storage_iceb.CirQueue.Refine.{is_full_lem, push_refines}
use lrued_redis_storage_iceb.State.{Text, WData, Os, Globals}
use lrued_redis_storage_iceb.Parser.{save_to_buf, number_from, merged}
use lrued_redis_storage_iceb.LruedQuery.{
  hgetall, query_key, keep_command, del_key, del_parser, is_del, find_star, at_star, command_loop,
  process_input_buffer,
}
use lrued_redis_storage_iceb.Invariant.{
  Core, core, IsInvariant, Settled, Keeps, bind-Keeps, then-Keeps, pure-Keeps, gets-Keeps,
  call-Keeps, change-Keeps, undefined-Keeps, if-Keeps, option-Keeps, on_queue-Keeps,
  change_queue-Keeps, round-Settled,
}
use lrued_redis_storage_iceb.Invariant.Calls.{write_data-Keeps}
use lrued_redis_storage_iceb.Invariant.Parsing.{save_to_buf-small, go_on-Settled}

module _ {W J : Type 0} (os : Os W J) {P : Core → Type 0} (inv : IsInvariant P) where
  query_key-Keeps : (len : ℕ) (key : Text) → Keeps P (query_key os len key)
  unfolding query_key
  query_key-Keeps len key =
      bind-Keeps _ _ (on_queue-Keeps inv is_full_cir_queue (λ q v. (_, q, is_full_lem v, v)))
        (λ full. if-Keeps full _ _ (pure-Keeps tt) (
          bind-Keeps _ _ (gets-Keeps (λ g. g.read_fd)) (λ fd.
            bind-Keeps _ _ (write_data-Keeps os inv fd (hgetall len key)) (λ wr.
              option-Keeps wr _ _ (pure-Keeps tt) (λ n.
                change_queue-Keeps inv (λ q. push_cir_queue q (some key))
                  (λ q v.
                    let (q', runs, valid, holds) = push_refines (some key) v in
                    (q', runs, valid)))))))

  keep_command-Keeps : (wdata : WData) (start : ℕ) → Keeps P (keep_command os wdata start)
  unfolding keep_command
  keep_command-Keeps wdata start =
      change-Keeps (λ g. record g { buf_master_cmd = save_to_buf wdata start g.buf_master_cmd })
        (λ g v. inv.with_commands (core g) _ v (save_to_buf-small wdata start g.buf_master_cmd))

  del_key-Keeps :
      (wdata : WData) (start index : ℕ) (len : ℤ) → Keeps P (del_key os wdata start index len)
  unfolding del_key
  del_key-Keeps wdata start index (negsuc n) = undefined-Keeps (Option ℕ)
  del_key-Keeps wdata start index (pos len) = if-Keeps _ _ _ (undefined-Keeps (Option ℕ)) (
      if-Keeps _ _ _ (then-Keeps _ _ (query_key-Keeps len _) (pure-Keeps (some (index + len + 2))))
        (then-Keeps _ _ (keep_command-Keeps wdata start) (pure-Keeps (some (index + len + 2)))))

  del_parser-Keeps : (wdata : WData) (start : ℕ) → Keeps P (del_parser os wdata start)
  unfolding del_parser
  del_parser-Keeps wdata start =
      let kept = then-Keeps _ _ (keep_command-Keeps wdata start) (pure-Keeps none) in
      if-Keeps _ _ _ (pure-Keeps none) (
        if-Keeps _ _ _ kept (
          option-Keeps (number_from wdata (start + 14)) _ _ (undefined-Keeps (Option ℕ))
            (λ n. if-Keeps _ _ _ kept (del_key-Keeps wdata start _ _))))

  is_del-Keeps : (wdata : WData) (index : ℕ) → Keeps P (is_del os wdata index)
  unfolding is_del
  is_del-Keeps wdata index =
      if-Keeps _ _ _
        (bind-Keeps _ _ (call-Keeps os.uninitialised) (λ behind. pure-Keeps (behind == 0)))
        (pure-Keeps false)

  at_star-Keeps : (wdata : WData) (index : ℕ) → Keeps P (at_star os wdata index)
  unfolding at_star keep_command
  at_star-Keeps wdata index =
      if-Keeps _ _ _
        (bind-Keeps _ _ (is_del-Keeps wdata index)
          (λ del. if-Keeps del _ _ (del_parser-Keeps wdata index) (pure-Keeps (some (index + 14)))))
        (if-Keeps _ _ _ (undefined-Keeps (Option ℕ))
          (then-Keeps _ _ (keep_command-Keeps wdata (index - 1)) (pure-Keeps none)))

  command_loop-Settled :
      (rounds : ℕ) (wdata : WData) (index : ℕ) (g : Globals W)
      → P (core g)
      → Settled P (command_loop os rounds wdata index g)
  unfolding command_loop Settled
  command_loop-Settled zero wdata index g v = tt
  command_loop-Settled (suc rounds) wdata index g v =
      let star = find_star (wdata.len - index) wdata index in
      round-Settled P (ltb star wdata.len) g _ v (
        go_on-Settled os inv (at_star os wdata star g) (command_loop os rounds wdata)
          ((at_star-Keeps wdata star).keeps g v) (command_loop-Settled rounds wdata))

  pub process_input_buffer-Keeps : (wdata : WData) → Keeps P (process_input_buffer os wdata)
  unfolding process_input_buffer
  process_input_buffer-Keeps wdata = bind-Keeps _ _ (gets-Keeps (λ g. g.buf_master_cmd)) (λ buf.
      then-Keeps _ _
        (change-Keeps (λ g. record g { buf_master_cmd = record (g.buf_master_cmd) { len = 0 } })
          (λ g v. inv.with_commands (core g) _ v (omega arith)))
        (record { keeps = command_loop-Settled _ (merged buf wdata) 0 }))
