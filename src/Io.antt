-- ===== src/Io.antt =====
-- proxy/io.c: reads and writes on a descriptor, and the reset after a broken connection.
pub mod Close
pub mod Delivery
use lrued_redis_storage_iceb.Prelude.{
  ℕ, zero, suc, ◌+◌, ◌-◌, Bool, true, false, ◌||◌, ◌&&◌, not, Option, none, some, List, [], ◌∷◌,
  ◌==◌, ltb, if◌then◌else◌, length, drop,
}
use lrued_redis_storage_iceb.CirQueue.{clear_queue}
use lrued_redis_storage_iceb.State.{
  Fd, Text, Os, Globals, Phase, start, Run, ok, exits, undefined, hangs, M, pure, ◌>>=◌, ◌>>◌,
  ReadResult, WriteResult, fails, gets, modify, call, tell, change_queue, when, eagain, einprogress,
}
use lrued_redis_storage_iceb.Connect.{connect_to_master}

abbrev pub is_set : Fd → Bool
is_set none = false
is_set (some fd) = true

-- What `readData` returns: -1, 0, or the bytes that it read.
pub data ReadData : Type 0 where
  failed nothing : ReadData
  bytes : Text → ReadData

module _ {W J : Type 0} (os : Os W J) where
  -- `aeDeleteFileEvent` and `close`, for one of the four descriptors
  unfoldable pub release : Fd → M W (Unit {0})
  release none = pure tt
  release (some fd) = do tell (os.delete_file_event fd); tell (os.close fd)

  -- The stores of `closeFd` between the last `close` and `clear_queue`.
  unfoldable pub reset : {W' : Type 0} → Globals W' → Globals W'
  reset g = record g {
    phase = start;
    buf_master_cmd = record (g.buf_master_cmd) { len = 0 };
    buf_slave_answer = record (g.buf_slave_answer) { len = 0 };
  }

  unfoldable pub close_fd : M W (Unit {0})
  unfolding reset
  close_fd = do
    timer ← gets (λ g. g.time_event_id)
    tell (os.delete_time_event timer)
    client ← gets (λ g. g.client_fd)
    release client
    modify (λ g. record g { client_fd = none })
    reader ← gets (λ g. g.read_fd)
    release reader
    modify (λ g. record g { read_fd = none })
    master ← gets (λ g. g.master_fd)
    release master
    modify (λ g. record g { master_fd = none })
    listener ← gets (λ g. g.listen_fd)
    release listener
    modify (λ g. record g { listen_fd = none })
    modify reset
    change_queue clear_queue
    timer' ← call os.create_time_event
    modify (λ g. record g { time_event_id = timer' })

  -- `if(master_fd == -1) connectToMaster(el);`
  unfoldable pub reconnect : M W (Unit {0})
  reconnect = do
    master ← gets (λ g. g.master_fd)
    when (not (is_set master)) (connect_to_master os >>= λ _. pure tt)

  -- `errno != EAGAIN && errno != EINPROGRESS`
  abbrev pub is_fatal : ℕ → Bool
  is_fatal errno = not (errno == eagain) && not (errno == einprogress)

  -- The branches of `readData` on `nread == 0` and `nread < 0` are alike.
  unfoldable pub classify : ReadResult → M W ReadData
  classify r = elim r.got [
    | some (b ∷ bs) ↦ pure (bytes (b ∷ bs))
    | _ ↦ (if is_fatal r.errno then (close_fd >> pure failed) else pure nothing)
  ]

  unfoldable pub read_from : Fd → ℕ → M W ReadData
  unfolding classify
  read_from none size = pure failed
  read_from (some fd) size = do r ← call (os.read fd size); classify r

  unfoldable pub read_data : Fd → ℕ → M W ReadData
  unfolding reconnect read_from
  read_data fd size = do reconnect; read_from fd size

  -- The loop of `writeData` over what is left to write: the first argument counts its rounds, the
  -- third is `all_write`. The result is what `writeData` returns, with `none` for -1.
  unfoldable pub write_loop : ℕ → ℕ → ℕ → Text → M W (Option ℕ)
  write_loop zero fd all_write rest g = hangs
  write_loop (suc rounds) fd all_write [] g = ok (some all_write, g)
  write_loop (suc rounds) fd all_write (b ∷ bs) g =
      let (r, w) = os.write fd (b ∷ bs) g.world in
      let g' = record g { world = w } in
      elim r.sent [
        | some (suc n) ↦ write_loop rounds fd (all_write + suc n) (drop (suc n) (b ∷ bs)) g'
        | _ ↦
            let again = write_loop rounds fd all_write (b ∷ bs) g' in
            let stop = (close_fd >> pure none) g' in
            if (r.errno == eagain) || (r.errno == einprogress) then again else stop
      ]

  unfoldable pub write_to : Fd → Text → M W (Option ℕ)
  unfolding write_loop
  write_to none buf = pure none
  write_to (some fd) buf = write_loop os.rounds fd 0 buf

  unfoldable pub write_data : Fd → Text → M W (Option ℕ)
  unfolding reconnect write_to
  write_data fd buf = do reconnect; write_to fd buf
