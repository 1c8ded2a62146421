-- ===== src/Invariant/Calls.antt =====
-- proxy/event.c and proxy/io.c keep the queue valid.
use lrued_redis_storage_iceb.Prelude.{
  ℕ, zero, suc, ◌+◌, arith, drop, Bool, Option, [], ◌∷◌, if◌then◌else◌, refl, true, false, none,
  some,
}
use lrued_redis_storage_iceb.State.{start, Fd, Os, SockOpt, Handler, Text, Globals, Run, pure, ◌>>◌}
use lrued_redis_storage_iceb.Connect.{
  close_raw, listen_on, listen_to_port, serve_master, connect_to_master,
}
use lrued_redis_storage_iceb.Invariant.{
  Core, core, IsInvariant, Keeps, bind-Keeps, then-Keeps, pure-Keeps, gets-Keeps, call-Keeps,
  tell-Keeps, modify-Keeps, exits-Keeps, if-Keeps, when-Keeps, Settled, if-Settled,
}
use lrued_redis_storage_iceb.Io.{
  bytes, nothing, is_fatal, write_loop, write_to, write_data, failed, release, reset, close_fd,
  reconnect, classify, read_from, read_data,
}
use lrued_redis_storage_iceb.Io.Close.{closed, close_fd-closed}
use lrued_redis_storage_iceb.CirQueue.Refine.{clear_refines}

-- What changes nothing that an invariant is about.
module _ {W J : Type 0} (os : Os W J) {P : Core → Type 0} where
  pub close_raw-Keeps : (fd : Fd) → Keeps P (close_raw os fd)
  unfolding close_raw Settled
  close_raw-Keeps fd = record { keeps = λ g v. ground arith }

  listen_on-Keeps : (fd : Fd) → Keeps P (listen_on os fd)
  unfolding listen_on Settled
  listen_on-Keeps fd = record { keeps = λ g v. ground arith }

  listen_to_port-Keeps : Keeps P (listen_to_port os)
  unfolding listen_to_port listen_on Settled
  listen_to_port-Keeps = record { keeps = λ g v. ground arith }

  serve_master-Keeps : (fd : Fd) → Keeps P (serve_master os fd)
  unfolding serve_master
  serve_master-Keeps none = pure-Keeps false
  serve_master-Keeps (some fd) =
      then-Keeps _ _ (tell-Keeps (os.set_option SockOpt.non_block (some fd))) (
        bind-Keeps _ _ (call-Keeps (os.create_file_event (some fd) Handler.read_from_master))
          (λ registered.
            if-Keeps registered _ _
              (bind-Keeps _ _ listen_to_port-Keeps
                (λ listening. if-Keeps listening _ _ (pure-Keeps true) (exits-Keeps Bool)))
              (then-Keeps _ _ (close_raw-Keeps (some fd)) (pure-Keeps false))))

  pub connect_to_master-Keeps : Keeps P (connect_to_master os)
  unfolding connect_to_master
  connect_to_master-Keeps = bind-Keeps _ _ (gets-Keeps (λ g. g.conf)) (λ conf.
      bind-Keeps _ _ (call-Keeps (os.tcp_connect conf.master_ip conf.master_port)) (λ fd.
        then-Keeps _ _ (modify-Keeps (λ g. record g { master_fd = fd }) (λ g. refl))
          (serve_master-Keeps fd)))

  pub reconnect-Keeps : Keeps P (reconnect os)
  unfolding reconnect
  reconnect-Keeps =
      bind-Keeps _ _ (gets-Keeps (λ g. g.master_fd))
        (λ master. when-Keeps _ _ (bind-Keeps _ _ connect_to_master-Keeps (λ b. pure-Keeps tt)))

module _ {W J : Type 0} (os : Os W J) {P : Core → Type 0} (inv : IsInvariant P) where
  release-Keeps : (fd : Fd) → Keeps P (release os fd)
  unfolding release Settled
  release-Keeps fd = record { keeps = λ g v. ground arith }

  pub close_fd-Keeps : Keeps P (close_fd os)
  unfolding Settled closed reset
  close_fd-Keeps = record {
    keeps = λ g v.
        let (q, runs, valid, empty) = clear_refines (inv.valid (core g) v) in
        let cut = record (core g) {
          phase = start;
          buf_master_cmd = record (g.buf_master_cmd) { len = 0 };
        } in
        let cleared =
          inv.with_commands (record (core g) { phase = start })
            (record (g.buf_master_cmd) { len = 0 }) (inv.at_start (core g) v) (omega arith) in
        let emptied =
          inv.with_answers cut (record (g.buf_slave_answer) { len = 0 }) cleared (omega arith) in
        rw (close_fd-closed os g q runs, Settled)
          (inv.with_queue
            (record cut { buf_slave_answer = record (g.buf_slave_answer) { len = 0 } }) q emptied
            valid);
  }

  give_up-Keeps :
      (errno : ℕ)
      → Keeps P (if is_fatal os errno then (close_fd os >> pure failed) else pure nothing)
  give_up-Keeps errno =
      if-Keeps (is_fatal os errno) _ _ (then-Keeps _ _ close_fd-Keeps (pure-Keeps failed))
        (pure-Keeps nothing)

  classify-Keeps :
      (got : Option Text) (errno : ℕ) → Keeps P (classify os (record { got = got; errno = errno }))
  unfolding classify
  classify-Keeps none errno = give_up-Keeps errno
  classify-Keeps (some []) errno = give_up-Keeps errno
  classify-Keeps (some (b ∷ bs)) errno = pure-Keeps (bytes (b ∷ bs))

  read_from-Keeps : (fd : Fd) (size : ℕ) → Keeps P (read_from os fd size)
  unfolding read_from
  read_from-Keeps none size = pure-Keeps failed
  read_from-Keeps (some fd) size =
      bind-Keeps _ _ (call-Keeps (os.read fd size)) (λ r. classify-Keeps r.got r.errno)

  pub read_data-Keeps : (fd : Fd) (size : ℕ) → Keeps P (read_data os fd size)
  unfolding read_data
  read_data-Keeps fd size = then-Keeps _ _ (reconnect-Keeps os) (read_from-Keeps fd size)

  -- What `writeData` makes of one result of `write`, its call at the end of the round included.
  write_round :
      (sent : Option ℕ) (c : Bool) (again stop : Run (Option ℕ × Globals W))
      (further : ℕ → Run (Option ℕ × Globals W))
      → Settled P again
      → Settled P stop
      → ((n : ℕ) → Settled P (further n))
      → Settled P (elim sent [ some (suc n) ↦ further n | _ ↦ if c then again else stop ])
  write_round none c again stop further ka ks kf = if-Settled P c again stop ka ks
  write_round (some zero) c again stop further ka ks kf = if-Settled P c again stop ka ks
  write_round (some (suc n)) c again stop further ka ks kf = kf n

  write_loop-Settled :
      (rounds fd all_write : ℕ) (rest : Text) (g : Globals W)
      → P (core g)
      → Settled P (write_loop os rounds fd all_write rest g)
  unfolding write_loop Settled
  write_loop-Settled zero fd all_write rest g v = tt
  write_loop-Settled (suc rounds) fd all_write [] g v = v
  write_loop-Settled (suc rounds) fd all_write (b ∷ bs) g v =
      write_round _ _ _ _ _ (write_loop-Settled rounds fd all_write (b ∷ bs) _ v)
        ((then-Keeps _ _ close_fd-Keeps (pure-Keeps none)).keeps _ v)
        (λ n. write_loop-Settled rounds fd (all_write + suc n) (drop (suc n) (b ∷ bs)) _ v)

  write_to-Keeps : (fd : Fd) (buf : Text) → Keeps P (write_to os fd buf)
  unfolding write_to
  write_to-Keeps none buf = pure-Keeps none
  write_to-Keeps (some fd) buf = record { keeps = write_loop-Settled os.rounds fd 0 buf }

  pub write_data-Keeps : (fd : Fd) (buf : Text) → Keeps P (write_data os fd buf)
  unfolding write_data
  write_data-Keeps fd buf = then-Keeps _ _ (reconnect-Keeps os) (write_to-Keeps fd buf)
