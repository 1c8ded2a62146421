-- ===== src/Tests/Wire.antt =====
-- A world of one connection that takes and gives two bytes at most, and asks to try again after each
-- time, for the runs of proxy/io.c and proxy/read_handler.c.
use lrued_redis_storage_iceb.Prelude.{
  ℕ, zero, suc, ◌≤◌, ◌<◌, ◌≡◌, refl, ◌⊎◌, inl, inr, Bool, true, false, none, some, [], ◌∷◌, ◌++◌,
  arith, length, replicate, take, drop, min,
}
use lrued_redis_storage_iceb.State.{
  Text, Os, ReadResult, WriteResult, Globals, sync, sync_start, running, eagain,
}
use lrued_redis_storage_iceb.Io.Delivery.{IsLink}
use lrued_redis_storage_iceb.Tests.World.{settings, hosts, fresh_queue}

pub record Wire : Type 0 where
  pub arrived : Text
  pub coming : Text
  pub is_busy : Bool

abbrev wire_read : ℕ → Wire → ReadResult × Wire
wire_read size w = elim w.is_busy [
  | true ↦ (record { got = none; errno = eagain }, record w { is_busy = false })
  | false ↦ (
    record { got = some (take (min 2 size) w.coming); errno = 0 },
    record w { coming = drop (min 2 size) w.coming; is_busy = true },
  )
]

abbrev wire_write : Text → Wire → WriteResult × Wire
wire_write text w = elim w.is_busy [
  | true ↦ (record { sent = none; errno = eagain }, record w { is_busy = false })
  | false ↦ (
    record { sent = some (length (take 2 text)); errno = 0 },
    record w { arrived = w.arrived ++ take 2 text; is_busy = true },
  )
]

abbrev pub wired : Os Wire Text
wired = record {
  rounds = 100;
  uninitialised = λ w. (0, w);
  stale = λ w. ([], w);
  read = λ fd size w. wire_read size w;
  write = λ fd text w. wire_write text w;
  close = λ fd w. w;
  tcp_connect = λ ip port w. (some 3, w);
  tcp_server = λ port ip w. (some 4, w);
  tcp_accept = λ fd w. ((some 5, 0), w);
  set_option = λ opt fd w. w;
  create_file_event = λ fd handler w. (true, w);
  delete_file_event = λ fd w. w;
  create_time_event = λ w. (some 1, w);
  delete_time_event = λ id w. w;
  json_object = [];
  json_object_set = λ json name value. json ++ (name ++ value);
  json_dumps = λ json. some json;
  curl_global_init = λ w. w;
  curl_init = λ w. (true, w);
  curl_escape = λ text. text;
  curl_post = λ url value w. (true, w);
  md5_buffer = replicate 64 7;
  strtoull = λ text. 5;
}

-- How often the wire may ask to try again.
abbrev waiting : Wire → ℕ
waiting w = elim w.is_busy [ true ↦ 1 | false ↦ 0 ]

pub le-one :
    (arrived coming : Text) (is_busy : Bool)
    → waiting (record { arrived = arrived; coming = coming; is_busy = is_busy }) ≤ 1
le-one arrived coming true = omega arith
le-one arrived coming false = omega arith

pub wire_writes :
    (c : ℕ) (text arrived coming : Text) (is_busy : Bool)
    → let w : Wire = record { arrived = arrived; coming = coming; is_busy = is_busy } in
      ((n : ℕ) × ((wire_write (c ∷ text) w).0.sent ≡ some (suc n))
        × (n ≤ length text)
        × ((wire_write (c ∷ text) w).1.arrived ≡ arrived ++ take (suc n) (c ∷ text))
        × ((wire_write (c ∷ text) w).1.coming ≡ coming))
      ⊎ (((wire_write (c ∷ text) w).0.sent ≡ none)
          × ((wire_write (c ∷ text) w).0.errno ≡ eagain)
          × ((wire_write (c ∷ text) w).1.arrived ≡ arrived)
          × ((wire_write (c ∷ text) w).1.coming ≡ coming)
          × (waiting (wire_write (c ∷ text) w).1 < waiting w))
wire_writes c text arrived coming true = inr (refl, refl, refl, refl, omega arith)
wire_writes c [] arrived coming false = inl (0, refl, omega arith, refl, refl)
wire_writes c (d ∷ text) arrived coming false = inl (1, refl, omega arith, refl, refl)

pub wire_reads :
    (size : ℕ) (arrived coming : Text) (is_busy : Bool)
    → 0 < size
    → 0 < length coming
    → let w : Wire = record { arrived = arrived; coming = coming; is_busy = is_busy } in
      ((c : ℕ) × (text : Text) × ((wire_read size w).0.got ≡ some (c ∷ text))
        × (length (c ∷ text) ≤ size)
        × (coming ≡ (c ∷ text) ++ (wire_read size w).1.coming)
        × ((wire_read size w).1.arrived ≡ arrived))
      ⊎ (((wire_read size w).0.got ≡ none)
          × ((wire_read size w).0.errno ≡ eagain)
          × ((wire_read size w).1.arrived ≡ arrived)
          × ((wire_read size w).1.coming ≡ coming)
          × (waiting (wire_read size w).1 < waiting w))
wire_reads size arrived coming true h h' = inr (refl, refl, refl, refl, omega arith)
wire_reads zero arrived coming false h h' = absurd (omega arith)
wire_reads (suc size) arrived [] false h h' = absurd (omega arith)
wire_reads (suc zero) arrived (c ∷ coming) false h h' = inl (c, [], refl, omega arith, refl, refl)
wire_reads (suc (suc size)) arrived (c ∷ []) false h h' =
    let e : min 2 (suc (suc size)) ≡ 2 = omega arith in
    rw e (inl (c, [], refl, omega arith, refl, refl))
wire_reads (suc (suc size)) arrived (c ∷ (d ∷ coming)) false h h' =
    let e : min 2 (suc (suc size)) ≡ 2 = omega arith in
    rw e (inl (c, d ∷ [], refl, omega arith, refl, refl))

abbrev pub wire_link : IsLink wired 3 5
wire_link = record {
  delivered = λ w. w.arrived;
  pending = λ w. w.coming;
  patience = waiting;
  bound = 1;
  patient = λ w. le-one w.arrived w.coming w.is_busy;
  writes = λ c text w. wire_writes c text w.arrived w.coming w.is_busy;
  reads = λ size w. wire_reads size w.arrived w.coming w.is_busy;
}

-- In SYNC_STATE, with a payload of five bytes to come, and two more behind it.
abbrev pub syncing : Globals Wire
syncing = record {
  conf = settings;
  hosts = hosts;
  master_fd = some 3;
  client_fd = some 5;
  read_fd = some 6;
  listen_fd = some 4;
  time_event_id = some 1;
  phase = sync;
  bulk_size = 5;
  cronloops = 0;
  buf_master_cmd = record { len = 0; bytes = [] };
  buf_slave_answer = record { len = 0; bytes = [] };
  queue = fresh_queue;
  world = record { arrived = []; coming = 1 ∷ 2 ∷ 3 ∷ 4 ∷ 5 ∷ 42 ∷ 43 ∷ []; is_busy = false };
}

-- In SYNC_START_STATE, before the announcement of that payload, which a newline precedes.
abbrev pub announced : Globals Wire
announced = record syncing {
  phase = sync_start;
  bulk_size = 0;
  world = record {
    arrived = [];
    coming = 10 ∷ 36 ∷ 53 ∷ 13 ∷ 10 ∷ 1 ∷ 2 ∷ 3 ∷ 4 ∷ 5 ∷ 42 ∷ 43 ∷ [];
    is_busy = true;
  };
}

-- The same connection, taken for the one of the queries.
abbrev pub asking : Globals Wire
asking = record syncing { read_fd = some 5; phase = running }
