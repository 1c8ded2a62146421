-- ===== src/Event.antt =====
-- proxy/event.c: the timer, and the connections of the slave.
pub mod Timer
use lrued_redis_storage_iceb.Prelude.{
  ℕ, ◌+◌, ◌%◌, ◌/◌, Bool, leb, not, ◌||◌, none, some, ◌==◌, if◌then◌else◌,
}
use lrued_redis_storage_iceb.State.{
  Fd, Os, Handler, SockOpt, M, pure, ◌>>=◌, ◌>>◌, gets, modify, call, tell, when, eagain,
}
use lrued_redis_storage_iceb.Connect.{connect_to_master, close_raw}
use lrued_redis_storage_iceb.Io.{is_set, close_fd}

-- `run_with_period`, where the timer runs every 100 ms
unfoldable pub run_with_period : ℕ → ℕ → Bool
run_with_period cronloops ms = leb ms 100 || (cronloops % (ms / 100) == 0)

module _ {W J : Type 0} (os : Os W J) where
  -- The result is the time to the next run.
  unfoldable pub time_event : M W ℕ
  unfolding run_with_period
  time_event = do
    loops ← gets (λ g. g.cronloops)
    master ← gets (λ g. g.master_fd)
    when (run_with_period loops 1000)
        (when (not (is_set master)) (connect_to_master os >>= λ _. pure tt))
    modify (λ g. record g { cronloops = g.cronloops + 1 })
    pure 100

  -- The connection for the queries; `anetNonBlock` is given `master_fd`.
  unfoldable pub watch_reader : Fd → M W (Unit {0})
  watch_reader none = close_fd os
  watch_reader (some fd) = do
    master ← gets (λ g. g.master_fd)
    tell (os.set_option SockOpt.non_block master)
    tell (os.set_option SockOpt.no_delay (some fd))
    tell (os.set_option SockOpt.keep_alive (some fd))
    registered ← call (os.create_file_event (some fd) Handler.read_del_value)
    when (not registered) (close_fd os)

  unfoldable pub open_reader : M W (Unit {0})
  unfolding watch_reader
  open_reader = do
    conf ← gets (λ g. g.conf)
    fd ← call (os.tcp_connect conf.slave_ip conf.slave_port)
    modify (λ g. record g { read_fd = fd })
    watch_reader fd

  unfoldable pub read_data_from_slave : Fd → M W (Unit {0})
  unfolding open_reader
  read_data_from_slave none = pure tt
  read_data_from_slave (some fd) = do
    registered ← call (os.create_file_event (some fd) Handler.read_from_slave)
    reader ← gets (λ g. g.read_fd)
    if registered then when (not (is_set reader)) open_reader else close_fd os

  -- `cfd` and `errno` after `anetTcpAccept`
  unfoldable pub accepted : Fd × ℕ → M W (Unit {0})
  unfolding read_data_from_slave
  accepted (cfd, errno) = do
    modify (λ g. record g { client_fd = cfd })
    tell (os.set_option SockOpt.keep_alive cfd)
    when (is_set cfd || errno == eagain) (read_data_from_slave cfd)

  unfoldable pub accept_tcp_handler : ℕ → M W (Unit {0})
  unfolding accepted close_raw
  accept_tcp_handler fd = do
    master ← gets (λ g. g.master_fd)
    client ← gets (λ g. g.client_fd)
    when (is_set master) (close_raw os client >> (call (os.tcp_accept fd) >>= λ r. accepted r))
