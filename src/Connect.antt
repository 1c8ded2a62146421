-- ===== src/Connect.antt =====
-- proxy/event.c: `connectToMaster` and `listenToPort`.
use lrued_redis_storage_iceb.Prelude.{Bool, true, false, none, some, if◌then◌else◌}
use lrued_redis_storage_iceb.State.{
  Fd, Os, Handler, SockOpt, exits, M, pure, ◌>>=◌, ◌>>◌, fails, gets, modify, call, tell,
}

module _ {W J : Type 0} (os : Os W J) where
  -- `close(fd)`; -1 is refused by the system and changes nothing.
  unfoldable pub close_raw : Fd → M W (Unit {0})
  close_raw none = pure tt
  close_raw (some fd) = tell (os.close fd)

  -- The result says whether 1 was returned, or -1.
  unfoldable pub listen_on : Fd → M W Bool
  unfolding close_raw
  listen_on none = pure false
  listen_on (some fd) = do
    tell (os.set_option SockOpt.non_block (some fd))
    tell (os.set_option SockOpt.no_delay (some fd))
    tell (os.set_option SockOpt.keep_alive (some fd))
    registered ← call (os.create_file_event (some fd) Handler.accept_tcp_handler)
    if registered then pure true else (close_raw (some fd) >> pure false)

  unfoldable pub listen_to_port : M W Bool
  unfolding listen_on
  listen_to_port = do
    conf ← gets (λ g. g.conf)
    fd ← call (os.tcp_server conf.listen_port conf.self_ip)
    modify (λ g. record g { listen_fd = fd })
    listen_on fd

  unfoldable pub serve_master : Fd → M W Bool
  unfolding close_raw
  serve_master none = pure false
  serve_master (some fd) = do
    tell (os.set_option SockOpt.non_block (some fd))
    registered ← call (os.create_file_event (some fd) Handler.read_from_master)
    if registered
        then (listen_to_port >>= λ listening. if listening then pure true else fails exits)
        else (close_raw (some fd) >> pure false)

  -- The result says whether 1 was returned, or -1; `exit(1)` where the port cannot be served.
  unfoldable pub connect_to_master : M W Bool
  unfolding serve_master
  connect_to_master = do
    conf ← gets (λ g. g.conf)
    fd ← call (os.tcp_connect conf.master_ip conf.master_port)
    modify (λ g. record g { master_fd = fd })
    serve_master fd
