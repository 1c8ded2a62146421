-- ===== src/Invariant/Reach.antt =====
-- What holds of the proxy whenever the event loop waits: proxy/main.c, event.c and read_handler.c.
use lrued_redis_storage_iceb.Prelude.{
  subst, sym, ℕ, ◌≤◌, arith, length, List, ◌≡◌, refl, Bool, true, false, some, if◌then◌else◌,
}
use lrued_redis_storage_iceb.CirQueue.{CirQueue, que_size, cleared_items, init_cir_queue}
use lrued_redis_storage_iceb.CirQueue.Valid.{IsValid, init-IsValid}
use lrued_redis_storage_iceb.CirQueue.Fifo.{Op, run_fifo}
use lrued_redis_storage_iceb.CirQueue.Refine.{contents, length-contents, run_queue, run_refines}
use lrued_redis_storage_iceb.State.{
  Phase, Text, Fd, Os, M, Run, Globals, ok, exits, undefined, hangs, ◌>>=◌, ◌>>◌, fails,
}
use lrued_redis_storage_iceb.Connect.{connect_to_master}
use lrued_redis_storage_iceb.ReadHandler.{read_del_value, read_from_slave, read_from_master}
use lrued_redis_storage_iceb.Event.{time_event, accept_tcp_handler}
use lrued_redis_storage_iceb.Startup.{start_queue, start_timer, start_up}
use lrued_redis_storage_iceb.Store.{init_curl}
use lrued_redis_storage_iceb.Invariant.{
  Core, core, IsInvariant, Settled, bind-Settled, Keeps, bind-Keeps, then-Keeps, pure-Keeps,
  call-Keeps, tell-Keeps, modify-Keeps, option-Keeps,
}
use lrued_redis_storage_iceb.Invariant.Handlers.{
  read_del_value-Keeps, read_from_slave-Keeps, read_from_master-Keeps,
}
use lrued_redis_storage_iceb.Invariant.Calls.{connect_to_master-Keeps}
use lrued_redis_storage_iceb.Invariant.Events.{time_event-Keeps, accept_tcp_handler-Keeps}

-- What `init_cir_queue` gives.
abbrev new_queue : CirQueue Text
new_queue = record { items = cleared_items; front = 0; rear = 0; count = 0; sem = que_size }

-- What the event loop may call, with the descriptor that is ready.
pub data Turn : Type 0 where
  master_ready slave_ready value_ready : Fd → Turn
  client_waits : ℕ → Turn
  timer : Turn

module _ {W J : Type 0} (os : Os W J) where
  unfoldable pub turn : Turn → M W (Unit {0})
  turn (master_ready fd) = read_from_master os fd
  turn (slave_ready fd) = read_from_slave os fd
  turn (value_ready fd) = read_del_value os fd
  turn (client_waits fd) = accept_tcp_handler os fd
  turn timer = time_event os >>= λ ms. λ g. ok (tt, g)

  -- The states in which `aeMain` waits, once `main` has come to it from the globals `g0`.
  pub data Reached (g0 : Globals W) : Globals W → Type 0 where
    started :
        (g' : Globals W) (sem_alloc : Bool)
        → start_up os sem_alloc g0 ≡ ok (true, g')
        → Reached g0 g'
    turned : (t : Turn) (g g' : Globals W) → Reached g0 g → turn t g ≡ ok (tt, g') → Reached g0 g'

  init_curl-Keeps : {P : Core → Type 0} → Keeps P (init_curl os)
  unfolding init_curl
  init_curl-Keeps = tell-Keeps os.curl_global_init

  start_timer-Keeps : {P : Core → Type 0} → Keeps P (start_timer os)
  unfolding start_timer
  start_timer-Keeps = bind-Keeps _ _ (call-Keeps os.create_time_event) (λ timer.
      then-Keeps _ _ (modify-Keeps (λ g. record g { time_event_id = timer }) (λ g. refl))
        (option-Keeps timer _ _ (pure-Keeps false) (λ id. pure-Keeps true)))

  module _ (P : Core → Type 0) (inv : IsInvariant P)
      (any_phase : (c : Core) (p : Phase) → P c → P (record c { phase = p })) where
    turn-Keeps : (t : Turn) → Keeps P (turn t)
    unfolding turn
    turn-Keeps (master_ready fd) = read_from_master-Keeps os inv any_phase fd
    turn-Keeps (slave_ready fd) = read_from_slave-Keeps os inv any_phase fd
    turn-Keeps (value_ready fd) = read_del_value-Keeps os inv fd
    turn-Keeps (client_waits fd) = accept_tcp_handler-Keeps os inv fd
    turn-Keeps timer = bind-Keeps _ _ (time_event-Keeps os inv) (λ ms. pure-Keeps tt)

    ok-Settled :
        {A : Type 0} (r : Run (A × Globals W)) (a : A) (g : Globals W)
        → Settled P r
        → r ≡ ok (a, g)
        → P (core g)
    unfolding Settled
    ok-Settled r a g s e = subst (Settled P) e s

    -- From globals that a new valid queue makes right.
    module _ (g0 : Globals W)
        (right : (q : CirQueue Text) → IsValid q → P (record (core g0) { queue = q })) where
      start_queue-Settled :
          (sem_alloc : Bool) (g : Globals W)
          → core g ≡ core g0
          → Settled P (start_queue os sem_alloc g)
      unfolding start_queue Settled init_cir_queue
      start_queue-Settled true g e =
          subst (λ c. P (record c { queue = new_queue })) (sym e)
            (right new_queue (init-IsValid refl).0)
      start_queue-Settled false g e = tt

      with_queue :
          (sem_alloc : Bool) (r : Run (Bool × Globals W))
          → Settled (λ c. c ≡ core g0) r
          → Settled P (
              (fails r >>= λ connected.
              if connected
              then (start_queue os sem_alloc >> (init_curl os >> start_timer os))
              else fails exits)
                g0)
      unfolding Settled
      with_queue sem_alloc (ok (true, g)) e =
          bind-Settled {P = P} (start_queue os sem_alloc g) g _ (start_queue-Settled sem_alloc g e)
            (λ u. then-Keeps _ _ init_curl-Keeps start_timer-Keeps)
      with_queue sem_alloc (ok (false, g)) e = tt
      with_queue sem_alloc exits e = tt
      with_queue sem_alloc undefined e = tt
      with_queue sem_alloc hangs e = tt

      start_up-Settled : (sem_alloc : Bool) → Settled P (start_up os sem_alloc g0)
      unfolding start_up
      start_up-Settled sem_alloc =
          let same : Keeps (λ c. c ≡ core g0) (connect_to_master os) = connect_to_master-Keeps os in
          with_queue sem_alloc (connect_to_master os g0) (same.keeps g0 refl)

      pub Reached-invariant : {g : Globals W} → Reached g0 g → P (core g)
      Reached-invariant (started g' sem_alloc e) =
          ok-Settled (start_up os sem_alloc g0) true g' (start_up-Settled sem_alloc) e
      Reached-invariant (turned t g g' r e) =
          ok-Settled (turn t g) tt g' ((turn-Keeps t).keeps g (Reached-invariant r)) e

  -- A valid queue is an invariant.
  abbrev HasQueue : Core → Type 0
  HasQueue c = IsValid c.queue

  HasQueue-IsInvariant : IsInvariant HasQueue
  HasQueue-IsInvariant = record {
    valid = λ c v. v;
    with_queue = λ c q v v'. v';
    with_commands = λ c b v small. v;
    with_answers = λ c b v small. v;
    at_start = λ c v. v;
  }

  pub Reached-IsValid : {g0 g : Globals W} → Reached g0 g → IsValid g.queue
  Reached-IsValid {g0} r =
      Reached-invariant HasQueue HasQueue-IsInvariant (λ c p v. v) g0 (λ q v. v) r

  -- In every state in which the event loop waits after `main` has come to it, the queue is valid,
  -- at most 4095 keys wait, and no sequence of calls on the queue blocks or tells it from a FIFO.
  pub Reached-fifo :
      {g0 g : Globals W} (ops : List (Op Text))
      → Reached g0 g
      → IsValid g.queue
        × (length (contents g.queue) ≤ 4095)
        × (run_queue g.queue ops ≡ some (run_fifo (contents g.queue) ops))
  Reached-fifo {g0} {g} ops r =
      let v = Reached-IsValid r in
      (v, omega (arith, length-contents g.queue, v.count_in), run_refines ops v)
