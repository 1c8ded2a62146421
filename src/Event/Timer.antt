-- ===== src/Event/Timer.antt =====
-- `timeEvent` of proxy/event.c, run after run: when the connection to the master is made again.
use lrued_redis_storage_iceb.Prelude.{
  ℕ, zero, suc, ◌+◌, ◌-◌, ◌%◌, ◌≤◌, ◌<◌, ◌≡◌, refl, ◌≢◌, false, Bool-cases, inl, inr, ◌==◌, none,
  some, arith, ◌∙◌, ap,
}
use lrued_redis_storage_iceb.State.{
  Os, Handler, SockOpt, ok, Globals, M, ◌>>=◌, ◌>>◌, pure, modify, fails,
}
use lrued_redis_storage_iceb.Connect.{connect_to_master, serve_master, close_raw}
use lrued_redis_storage_iceb.Event.{time_event, run_with_period}

module _ {W J : Type 0} (os : Os W J) where
  -- So many runs of the timer.
  unfoldable pub timers : ℕ → M W (Unit {0})
  timers zero = pure tt
  timers (suc n) = time_event os >>= λ _. timers n

  -- A run that connects, and counts itself.
  unfoldable pub reconnecting : M W ℕ
  reconnecting =
      (connect_to_master os >>= λ _. pure tt)
      >> (modify (λ g. record g { cronloops = g.cronloops + 1 }) >> pure 100)

  run-connected :
      (g : Globals W) (fd : ℕ)
      → g.master_fd ≡ some fd
      → time_event os g ≡ ok (100, record g { cronloops = g.cronloops + 1 })
  unfolding time_event run_with_period
  run-connected g fd e = elim (Bool-cases (g.cronloops % 10 == 0)) [
    | inl due ↦ rw (e, due) refl
    | inr not_due ↦ rw (e, not_due) refl
  ]

  run-waits :
      (g : Globals W)
      → g.cronloops % 10 ≢ 0
      → time_event os g ≡ ok (100, record g { cronloops = g.cronloops + 1 })
  unfolding time_event run_with_period
  run-waits g h =
      let not_due : (g.cronloops % 10 == 0) ≡ false = ground (arith, h) in rw not_due refl

  run-connects :
      (g : Globals W) → g.cronloops % 10 ≡ 0 → g.master_fd ≡ none → time_event os g ≡ reconnecting g
  unfolding time_event run_with_period reconnecting
  run-connects g h e = rw (h, e) refl

  -- Runs before the next tenth only count.
  waits :
      (k : ℕ) (g : Globals W)
      → ((j : ℕ) → j < k → (g.cronloops + j) % 10 ≢ 0)
      → timers k g ≡ ok (tt, record g { cronloops = g.cronloops + k })
  unfolding timers
  waits zero g h = ap (λ n. ok (tt, record g { cronloops = n })) (omega arith)
  waits (suc k) g h =
      let counted = record g { cronloops = g.cronloops + 1 } in
      ap (λ r. (fails r >>= λ _. timers k) g)
        (run-waits g (λ e. h 0 (omega arith) (omega (arith, e))))
      ∙ waits k counted (λ j lt e. h (suc j) (omega arith) (omega (arith, e)))
      ∙ ap (λ n. ok (tt, record g { cronloops = n })) (omega arith)

  -- Without a connection to the master, the connection is tried in one of the next ten runs of the
  -- timer, and the runs before it only count.
  pub timer-reconnects :
      (g : Globals W)
      → g.master_fd ≡ none
      → (k : ℕ) × (k ≤ 9)
        × (timers k g ≡ ok (tt, record g { cronloops = g.cronloops + k }))
        × (time_event os (record g { cronloops = g.cronloops + k })
            ≡ reconnecting (record g { cronloops = g.cronloops + k }))
  timer-reconnects g e =
      let k = (10 - g.cronloops % 10) % 10 in
      (
        k,
        omega arith,
        waits k g (λ j lt. λ e'. omega (arith, e', lt)),
        run-connects (record g { cronloops = g.cronloops + k }) (omega arith) e,
      )

  -- With a descriptor for the master the timer only counts, in any number of runs.
  only_counts :
      (n : ℕ) (g : Globals W) (fd : ℕ)
      → g.master_fd ≡ some fd
      → timers n g ≡ ok (tt, record g { cronloops = g.cronloops + n })
  unfolding timers
  only_counts zero g fd e = ap (λ n. ok (tt, record g { cronloops = n })) (omega arith)
  only_counts (suc n) g fd e =
      ap (λ r. (fails r >>= λ _. timers n) g) (run-connected g fd e)
      ∙ only_counts n (record g { cronloops = g.cronloops + 1 }) fd e
      ∙ ap (λ n. ok (tt, record g { cronloops = n })) (omega arith)

  -- If the master is reached and its descriptor cannot be registered, connectToMaster closes the
  -- descriptor as its last call and leaves it in `master_fd`, where it is taken for a connection: any
  -- number of timer runs only counts.
  pub connect_to_master-stuck :
      (g : Globals W) (fd : ℕ) (w : W)
      → os.tcp_connect g.conf.master_ip g.conf.master_port g.world ≡ (some fd, w)
      → (os.create_file_event
          (some fd)
          Handler.read_from_master
          (os.set_option SockOpt.non_block (some fd) w)).0
        ≡ false
      → (n : ℕ)
      → (g' : Globals W) × (connect_to_master os g ≡ ok (false, g'))
        × (g'.master_fd ≡ some fd)
        × (g'.world
            ≡ os.close fd
                (os.create_file_event
                  (some fd)
                  Handler.read_from_master
                  (os.set_option SockOpt.non_block (some fd) w)).1)
        × (timers n g' ≡ ok (tt, record g' { cronloops = g'.cronloops + n }))
  unfolding connect_to_master serve_master close_raw
  connect_to_master-stuck g fd w reached refused n =
      let asked =
        os.create_file_event (some fd) Handler.read_from_master
          (os.set_option SockOpt.non_block (some fd) w) in
      let g' = record g { master_fd = some fd; world = os.close fd asked.1 } in
      (g', rw (reached, refused) refl, refl, refl, only_counts n g' fd refl)
