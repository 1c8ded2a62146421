-- ===== src/State.antt =====
-- The globals of the proxy (proxy/main.c, io.c, event.c, parser.c), what it calls outside its own
-- code, and the monad of its functions.
use lrued_redis_storage_iceb.Prelude.{ℕ, Bool, Option, none, some, List, if◌then◌else◌}
use lrued_redis_storage_iceb.Prelude.Int.{ℤ}
use lrued_redis_storage_iceb.CirQueue.{CirQueue}
use lrued_redis_storage_iceb.HashTable.{HashTable}

-- A file descriptor; `none` is -1.
abbrev pub Fd : Type 0
Fd = Option ℕ

-- The bytes of a C string, or of an array.
abbrev pub Text : Type 0
Text = List ℕ

-- START_STATE 0, SYNC_START_STATE 1, SYNC_STATE 2, RUNNING_STATE 3 of proxy/io.h
pub data Phase : Type 0 where
  start sync_start sync running : Phase

-- `struct WData`: the array may be longer than `len`.
pub record WData : Type 0 where
  pub len : ℕ
  pub bytes : List ℕ

-- The functions that are registered with the event loop.
pub data Handler : Type 0 where
  read_from_master read_from_slave read_del_value accept_tcp_handler : Handler

pub data SockOpt : Type 0 where
  non_block no_delay keep_alive : SockOpt

-- A result of `read`: the bytes that came (`none` is -1), and `errno` after the call.
pub record ReadResult : Type 0 where
  pub got : Option Text
  pub errno : ℕ

-- A result of `write`: how many bytes went out (`none` is -1), and `errno` after the call.
pub record WriteResult : Type 0 where
  pub sent : Option ℕ
  pub errno : ℕ

-- What the proxy calls: system calls, the event loop (ae), sockets (anet), curl, Jansson.
-- `W` is the state of the world, `J` a JSON object. `uninitialised` is what an uninitialised local
-- holds, `stale` what stands in the rest of an uninitialised array, and `rounds` how many rounds of
-- a loop that waits for the world are followed.
pub record Os (W J : Type 0) : Type 0 where
  pub rounds : ℕ
  pub uninitialised : W → ℕ × W
  pub stale : W → Text × W
  pub read : ℕ → ℕ → W → ReadResult × W
  pub write : ℕ → Text → W → WriteResult × W
  pub close : ℕ → W → W
  pub tcp_connect : Text → ℤ → W → Fd × W
  pub tcp_server : ℤ → Text → W → Fd × W
  pub tcp_accept : ℕ → W → (Fd × ℕ) × W
  pub set_option : SockOpt → Fd → W → W
  pub create_file_event : Fd → Handler → W → Bool × W
  pub delete_file_event : ℕ → W → W
  pub create_time_event : W → Option ℕ × W
  pub delete_time_event : Option ℕ → W → W
  pub json_object : J
  pub json_object_set : J → Text → Text → J
  pub json_dumps : J → Option Text
  pub curl_global_init : W → W
  pub curl_init : W → Bool × W
  pub curl_escape : Text → Text
  pub curl_post : Text → Text → W → Bool × W
  -- the uninitialised buffer of the `MD5_CTX` of `hash`
  pub md5_buffer : Text
  pub strtoull : Text → ℕ

-- `Settings` of proxy/read_conf.h.
pub record Settings : Type 0 where
  pub listen_port : ℤ
  pub self_ip : Text
  pub master_ip : Text
  pub master_port : ℤ
  pub slave_ip : Text
  pub slave_port : ℤ
  pub ips : List Text

-- `host_masters`, `host_master_num` and `hashtable`, as proxy/store.c uses them.
pub record Hosts : Type 0 where
  pub host_masters : List (Option Text)
  pub host_master_num : ℕ
  pub hashtable : HashTable

pub record Globals (W : Type 0) : Type 0 where
  pub conf : Settings
  pub hosts : Hosts
  pub master_fd : Fd
  pub client_fd : Fd
  pub read_fd : Fd
  pub listen_fd : Fd
  pub time_event_id : Option ℕ
  pub phase : Phase
  pub bulk_size : ℕ
  pub cronloops : ℕ
  pub buf_master_cmd : WData
  pub buf_slave_answer : WData
  pub queue : CirQueue Text
  pub world : W

-- How a call ends: it returns, the process ends by `exit(1)` or by `g_error`, it does what C leaves
-- undefined, or it waits for ever (a semaphore without permits, a loop past the rounds that are
-- followed).
pub data Run (A : Type 0) : Type 0 where
  ok : A → Run A
  exits undefined hangs : Run A

abbrev pub M : Type 0 → Type 0 → Type 0
M W A = Globals W → Run (A × Globals W)

abbrev pub pure : {W A : Type 0} → A → M W A
pure a g = ok (a, g)

infixl 5 ◌>>=◌ ◌>>◌
abbrev pub ◌>>=◌ : {W A B : Type 0} → M W A → (A → M W B) → M W B
◌>>=◌ m f g = elim (m g) [
  | ok (a, g') ↦ f a g'
  | exits ↦ exits
  | undefined ↦ undefined
  | hangs ↦ hangs
]

abbrev pub ◌>>◌ : {W B : Type 0} → M W (Unit {0}) → M W B → M W B
m >> k = m >>= λ _. k

abbrev pub fails : {W A : Type 0} → Run (A × Globals W) → M W A
fails r g = r

-- A part of the globals, and a change of them.
abbrev pub gets : {W A : Type 0} → (Globals W → A) → M W A
gets f g = ok (f g, g)

abbrev pub modify : {W : Type 0} → (Globals W → Globals W) → M W (Unit {0})
modify f g = ok (tt, f g)

-- A call that only the world answers.
abbrev pub call : {W A : Type 0} → (W → A × W) → M W A
call f g = let (a, w) = f g.world in ok (a, record g { world = w })

abbrev pub tell : {W : Type 0} → (W → W) → M W (Unit {0})
tell f g = ok (tt, record g { world = f g.world })

-- A call on the queue `q`; `none` blocks.
abbrev pub on_queue : {W A : Type 0} → (CirQueue Text → Option (A × CirQueue Text)) → M W A
on_queue f g = elim (f g.queue) [ none ↦ hangs | some (a, q) ↦ ok (a, record g { queue = q }) ]

abbrev pub change_queue : {W : Type 0} → (CirQueue Text → Option (CirQueue Text)) → M W (Unit {0})
change_queue f g = elim (f g.queue) [ none ↦ hangs | some q ↦ ok (tt, record g { queue = q }) ]

-- `if(c) f();`
abbrev pub when : {W : Type 0} → Bool → M W (Unit {0}) → M W (Unit {0})
when c m g = if c then m g else ok (tt, g)

abbrev pub max_read : ℕ
max_read = 10240

abbrev pub eagain : ℕ
eagain = 11

abbrev pub einprogress : ℕ
einprogress = 115
