-- ===== src/Io/Close.antt =====
-- `closeFd` of proxy/io.c: what the proxy is after a broken connection.
use lrued_redis_storage_iceb.Prelude.{◌≡◌, refl, none, some, arith, []}
use lrued_redis_storage_iceb.CirQueue.{CirQueue, clear_queue}
use lrued_redis_storage_iceb.CirQueue.Valid.{IsValid}
use lrued_redis_storage_iceb.CirQueue.Refine.{contents, clear_refines}
use lrued_redis_storage_iceb.State.{Fd, Text, Os, Globals, start, ok, ◌>>=◌, ◌>>◌}
use lrued_redis_storage_iceb.Io.{release, reset, close_fd}

-- Nothing is connected, nothing half read is kept, and no key waits for an answer.
pub record IsReset {W : Type 0} (before g : Globals W) : Type 0 where
  pub master : g.master_fd ≡ none
  pub client : g.client_fd ≡ none
  pub reader : g.read_fd ≡ none
  pub listener : g.listen_fd ≡ none
  pub phase_start : g.phase ≡ start
  pub commands : g.buf_master_cmd.len ≡ 0
  pub answers : g.buf_slave_answer.len ≡ 0
  pub queue_valid : IsValid g.queue
  pub no_keys : contents g.queue ≡ []
  pub same_conf : g.conf ≡ before.conf
  pub same_hosts : g.hosts ≡ before.hosts

module _ {W J : Type 0} (os : Os W J) where
  -- The world after one descriptor was taken from the event loop and closed.
  unfoldable pub released : Fd → W → W
  released none w = w
  released (some fd) w = os.close fd (os.delete_file_event fd w)

  release_lem :
      (fd : Fd) (g : Globals W)
      → release os fd g ≡ ok (tt, record g { world = released fd g.world })
  unfolding release released
  release_lem none g = refl
  release_lem (some fd) g = refl

  -- What `closeFd` leaves, with the queue that `clear_queue` gave.
  unfoldable pub closed : Globals W → CirQueue Text → Globals W
  unfolding reset
  closed g q =
      let w = released g.listen_fd (
        released g.master_fd (
          released g.read_fd
            (released g.client_fd (os.delete_time_event g.time_event_id g.world)))) in
      record (reset os g) {
        client_fd = none;
        read_fd = none;
        master_fd = none;
        listen_fd = none;
        queue = q;
        time_event_id = (os.create_time_event w).0;
        world = (os.create_time_event w).1;
      }

  pub close_fd-closed :
      (g : Globals W) (q : CirQueue Text)
      → clear_queue g.queue ≡ some q
      → close_fd os g ≡ ok (tt, closed g q)
  unfolding close_fd closed
  close_fd-closed g q runs = simp (◌>>=◌, ◌>>◌, release_lem) (ground (arith, runs))

  -- `closeFd` returns whenever the queue is valid, whatever is connected, and resets the proxy.
  pub close_fd-IsReset :
      (g : Globals W)
      → IsValid g.queue
      → (g' : Globals W) × (close_fd os g ≡ ok (tt, g')) × IsReset g g'
  unfolding closed
  close_fd-IsReset g v =
      let (q, runs, valid, empty) = clear_refines v in
      (
        closed g q,
        close_fd-closed g q runs,
        record {
          master = refl;
          client = refl;
          reader = refl;
          listener = refl;
          phase_start = refl;
          commands = refl;
          answers = refl;
          queue_valid = valid;
          no_keys = empty;
          same_conf = refl;
          same_hosts = refl;
        },
      )
