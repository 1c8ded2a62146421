-- ===== src/Queries/Forwarded.antt =====
-- A read from the master in RUNNING_STATE of proxy/read_handler.c: the slave is asked for the keys
-- before it is given the commands.
use lrued_redis_storage_iceb.Prelude.{
  ℕ, ◌+◌, ◌≤◌, ◌<◌, ◌≡◌, true, some, List, ◌∷◌, ◌++◌, map, arith, length, ◌∙◌, ap,
}
use lrued_redis_storage_iceb.CirQueue.{CirQueue}
use lrued_redis_storage_iceb.CirQueue.Valid.{IsValid}
use lrued_redis_storage_iceb.CirQueue.Refine.{contents}
use lrued_redis_storage_iceb.State.{
  Text, Os, ok, running, sync, sync_start, max_read, M, Globals, ◌>>=◌, ◌>>◌, pure, gets, fails,
}
use lrued_redis_storage_iceb.Io.{bytes}
use lrued_redis_storage_iceb.Parser.Number.{NoNul}
use lrued_redis_storage_iceb.Parser.Reply.{max_len}
use lrued_redis_storage_iceb.LruedQuery.Del.{Del, dels_bytes, AllDels, process_input_buffer-dels}
use lrued_redis_storage_iceb.ReadHandler.{
  received, to_slave, on_sync_start, on_sync, on_start, on_running, on_data, read_from_master,
}
use lrued_redis_storage_iceb.ReadHandler.Relay.{read_data-bytes}
use lrued_redis_storage_iceb.Queries.Asked.{
  IsOpen, IsConnected, asked, keys_of, ask_all-open, write_data-open,
}

module _ {W J : Type 0} (os : Os W J) where
  -- A read of some bytes in RUNNING_STATE.
  read_in_running :
      (from master c : ℕ) (text : Text) (g : Globals W)
      → g.phase ≡ running
      → g.master_fd ≡ some master
      → (os.read from max_read g.world).0.got ≡ some (c ∷ text)
      → read_from_master os (some from) g
        ≡ on_running os (c ∷ text) (record g { world = (os.read from max_read g.world).1 })
  unfolding read_from_master on_data
  read_in_running from master c text g at_running e got =
      let g1 : Globals W = record g { world = (os.read from max_read g.world).1 } in
      ap
        (λ p.
          (elim p as (λ p. M W (Unit {0})) [
            | sync_start ↦ on_sync_start os (some from)
            | sync ↦ on_sync os (some from)
            | _ ↦ on_data os (some from)
          ])
            g)
        at_running
      ∙ ap
          (λ r.
            (fails r >>= λ got'. gets (λ h. h.phase) >>= λ p. elim got' as (λ x. M W (Unit {0})) [
              | bytes t ↦ elim p as (λ x. M W (Unit {0})) [
                | running ↦ on_running os t
                | _ ↦ on_start os t
              ]
              | _ ↦ pure tt
            ])
              g)
          (read_data-bytes os from max_read master c text g e got)
      ∙ ap
          (λ p.
            (elim p as (λ p. M W (Unit {0})) [
              | running ↦ on_running os (c ∷ text)
              | _ ↦ on_start os (c ∷ text)
            ])
              g1)
          at_running

  to_slave-open :
      (ready : IsOpen os) (client master c : ℕ) (text : Text) (g : Globals W)
      → g.client_fd ≡ some client
      → g.master_fd ≡ some master
      → to_slave os (c ∷ text) g
        ≡ ok (true, record g { world = (os.write client (c ∷ text) g.world).1 })
  unfolding to_slave
  to_slave-open ready client master c text g ec em =
      ground (arith, ec, write_data-open os ready client master (c ∷ text) g (omega arith) em)

  -- A read of DEL commands of one key each in RUNNING_STATE, which may complete what was kept of one,
  -- writes a query for each key to the connection of the queries and only then the bytes that were
  -- read to the connection of the slave; every key waits in the queue, in the order of the commands,
  -- and nothing is kept. The queue has room for the keys, `write` takes what it is given, the byte
  -- that the comparison reads behind `cmp` is a NUL, and the text has no NUL and is shorter than
  -- 20480 bytes.
  pub read_from_master-asks_first :
      (ready : IsOpen os) (ds : List Del) (kept text junk : Text) (from fd client c : ℕ)
      (g : Globals W)
      → ((w : W) → (os.uninitialised w).0 ≡ 0)
      → g.phase ≡ running
      → IsConnected fd g
      → g.client_fd ≡ some client
      → (os.read from max_read g.world).0.got ≡ some (c ∷ text)
      → AllDels ds
      → kept ++ (c ∷ text) ≡ dels_bytes ds
      → NoNul kept
      → NoNul (c ∷ text)
      → length (dels_bytes ds) < max_len
      → g.buf_master_cmd ≡ record { len = length kept; bytes = kept ++ junk }
      → IsValid g.queue
      → length (contents g.queue) + length ds ≤ 4095
      → (q : CirQueue Text) × (read_from_master os (some from) g ≡ (
          let w = (os.stale (os.read from max_read g.world).1).1 in
          ok (
            tt,
            record g {
              queue = q;
              buf_master_cmd = record { len = 0; bytes = kept ++ junk };
              world = (os.write client (c ∷ text) (asked os fd ds w)).1;
            },
          )))
        × IsValid q
        × (contents q ≡ contents g.queue ++ map some (keys_of ds))
  unfolding on_running received
  read_from_master-asks_first ready ds kept text junk from fd client c g zeroed at_running on ec got
        vd whole clean clean' short buffered v room =
      let w = (os.stale (os.read from max_read g.world).1).1 in
      let heard : Globals W = record g { world = w } in
      let cut = record heard { buf_master_cmd = record { len = 0; bytes = kept ++ junk } } in
      let (q, runs, valid, holds) =
        ask_all-open os ready fd ds cut
          (record { master = on.master; to_master = on.to_master; to_slave = on.to_slave }) v
          room in
      let scanned =
        process_input_buffer-dels os ds kept (c ∷ text) junk
          (os.stale (os.read from max_read g.world).1).0 heard vd whole clean clean' short zeroed
          buffered
        ∙ runs in
      let g1 = record cut { queue = q; world = asked os fd ds w } in
      (
        q,
        read_in_running from on.master c text g at_running on.to_master got
            ∙ ap (λ r. (fails r >> (to_slave os (c ∷ text) >>= λ sent. pure tt)) heard) scanned
            ∙ ap (λ r. (fails r >>= λ sent. pure tt) g1)
                (to_slave-open ready client on.master c text g1 ec on.to_master),
        valid,
        holds,
      )
