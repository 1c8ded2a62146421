-- ===== src/Invariant/Events.antt =====
-- The timer and the connections of the slave, of proxy/event.c, keep the queue valid.
use lrued_redis_storage_iceb.Prelude.{ℕ, ◌+◌, refl, not, none, some, ◌==◌, ◌||◌}
use lrued_redis_storage_iceb.State.{Fd, Os, Handler, SockOpt, eagain}
use lrued_redis_storage_iceb.Io.{is_set}
use lrued_redis_storage_iceb.Event.{
  run_with_period, time_event, watch_reader, open_reader, read_data_from_slave, accepted,
  accept_tcp_handler,
}
use lrued_redis_storage_iceb.Invariant.{
  Core, IsInvariant, Keeps, bind-Keeps, then-Keeps, pure-Keeps, gets-Keeps, call-Keeps, tell-Keeps,
  modify-Keeps, if-Keeps, when-Keeps,
}
use lrued_redis_storage_iceb.Invariant.Calls.{
  close_raw-Keeps, connect_to_master-Keeps, close_fd-Keeps,
}

module _ {W J : Type 0} (os : Os W J) {P : Core → Type 0} (inv : IsInvariant P) where
  pub time_event-Keeps : Keeps P (time_event os)
  unfolding time_event
  time_event-Keeps = bind-Keeps _ _ (gets-Keeps (λ g. g.cronloops)) (λ loops.
      bind-Keeps _ _ (gets-Keeps (λ g. g.master_fd)) (λ master.
        then-Keeps _ _
          (when-Keeps (run_with_period loops 1000) _ (
            when-Keeps (not (is_set master)) _
              (bind-Keeps _ _ (connect_to_master-Keeps os) (λ b. pure-Keeps tt))))
          (then-Keeps _ _ (modify-Keeps (λ g. record g { cronloops = g.cronloops + 1 }) (λ g. refl))
            (pure-Keeps 100))))

  watch_reader-Keeps : (fd : Fd) → Keeps P (watch_reader os fd)
  unfolding watch_reader
  watch_reader-Keeps none = close_fd-Keeps os inv
  watch_reader-Keeps (some fd) = bind-Keeps _ _ (gets-Keeps (λ g. g.master_fd)) (λ master.
      then-Keeps _ _ (tell-Keeps (os.set_option SockOpt.non_block master)) (
        then-Keeps _ _ (tell-Keeps (os.set_option SockOpt.no_delay (some fd))) (
          then-Keeps _ _ (tell-Keeps (os.set_option SockOpt.keep_alive (some fd))) (
            bind-Keeps _ _ (call-Keeps (os.create_file_event (some fd) Handler.read_del_value))
              (λ registered. when-Keeps (not registered) _ (close_fd-Keeps os inv))))))

  open_reader-Keeps : Keeps P (open_reader os)
  unfolding open_reader
  open_reader-Keeps = bind-Keeps _ _ (gets-Keeps (λ g. g.conf)) (λ conf.
      bind-Keeps _ _ (call-Keeps (os.tcp_connect conf.slave_ip conf.slave_port)) (λ fd.
        then-Keeps _ _ (modify-Keeps (λ g. record g { read_fd = fd }) (λ g. refl))
          (watch_reader-Keeps fd)))

  read_data_from_slave-Keeps : (fd : Fd) → Keeps P (read_data_from_slave os fd)
  unfolding read_data_from_slave
  read_data_from_slave-Keeps none = pure-Keeps tt
  read_data_from_slave-Keeps (some fd) =
      bind-Keeps _ _ (call-Keeps (os.create_file_event (some fd) Handler.read_from_slave))
        (λ registered. bind-Keeps _ _ (gets-Keeps (λ g. g.read_fd)) (λ reader.
          if-Keeps registered _ _ (when-Keeps (not (is_set reader)) _ open_reader-Keeps)
            (close_fd-Keeps os inv)))

  accepted-Keeps : (r : Fd × ℕ) → Keeps P (accepted os r)
  unfolding accepted
  accepted-Keeps (cfd, errno) =
      then-Keeps _ _ (modify-Keeps (λ g. record g { client_fd = cfd }) (λ g. refl)) (
        then-Keeps _ _ (tell-Keeps (os.set_option SockOpt.keep_alive cfd))
          (when-Keeps (is_set cfd || errno == eagain) _ (read_data_from_slave-Keeps cfd)))

  pub accept_tcp_handler-Keeps : (fd : ℕ) → Keeps P (accept_tcp_handler os fd)
  unfolding accept_tcp_handler
  accept_tcp_handler-Keeps fd = bind-Keeps _ _ (gets-Keeps (λ g. g.master_fd)) (λ master.
      bind-Keeps _ _ (gets-Keeps (λ g. g.client_fd)) (λ client. when-Keeps (is_set master) _ (
        then-Keeps _ _ (close_raw-Keeps os client)
          (bind-Keeps _ _ (call-Keeps (os.tcp_accept fd)) (λ r. accepted-Keeps r)))))
