-- ===== src/Startup.antt =====
-- proxy/read_conf.c and proxy/main.c: the settings, the table of the file servers, and the start.
pub mod Conf
pub mod Backups
use lrued_redis_storage_iceb.Prelude.{
  ℕ, zero, ◌%◌, Bool, true, false, Option, none, some, List, [], ◌∷◌, ◌==◌, if◌then◌else◌, length,
  codes,
}
use lrued_redis_storage_iceb.Prelude.Int.{ℤ, pos}
use lrued_redis_storage_iceb.CirQueue.{cleared_items, init_cir_queue}
use lrued_redis_storage_iceb.HashTable.{HashTable, ht_create, ht_set}
use lrued_redis_storage_iceb.HashTable.Chain.{all_succeed}
use lrued_redis_storage_iceb.State.{
  Text, Os, Settings, Hosts, Globals, start, Run, ok, exits, M, pure, ◌>>=◌, ◌>>◌, fails, modify,
  call,
}
use lrued_redis_storage_iceb.Store.{init_curl}
use lrued_redis_storage_iceb.Connect.{connect_to_master}

-- What GLib's key file gives for the group `iceberg`: 0 or NULL for a key that is missing.
pub record KeyFile : Type 0 where
  pub get_integer : Text → ℤ
  pub get_string : Text → Option Text
  pub get_string_list : Text → Option (List Text)

-- `if(!value) return NULL;`
infixl 5 ◌>>=?◌
abbrev pub ◌>>=?◌ : {A B : Type 0} → Option A → (A → Option B) → Option B
none >>=? f = none
some a >>=? f = f a

-- `if(!port) return NULL;` over a `gint`
abbrev pub nonzero : ℤ → Option ℤ
nonzero (pos zero) = none
nonzero port = some port

unfoldable pub port_of : KeyFile → Text → Option ℤ
port_of file name = nonzero (file.get_integer name)

-- `length % 2 != 0 || !conf->ips`
unfoldable pub pairs_of : KeyFile → Option (List Text)
pairs_of file = elim (file.get_string_list (codes "ips")) [
  | none ↦ none
  | some ips ↦ if length ips % 2 == 0 then some ips else none
]

-- `load_conf` once the file is loaded; `none` is NULL.
unfoldable pub read_settings : KeyFile → Option Settings
unfolding port_of pairs_of
read_settings file = port_of file (codes "listen_port") >>=? λ listen_port.
    file.get_string (codes "self_ip") >>=? λ self_ip.
    file.get_string (codes "master_ip") >>=? λ master_ip.
    port_of file (codes "master_port") >>=? λ master_port.
    file.get_string (codes "slave_ip") >>=? λ slave_ip.
    port_of file (codes "slave_port") >>=? λ slave_port. pairs_of file >>=? λ ips. some (record {
      listen_port = listen_port;
      self_ip = self_ip;
      master_ip = master_ip;
      master_port = master_port;
      slave_ip = slave_ip;
      slave_port = slave_port;
      ips = ips;
    })

-- `none` as the file: it could not be loaded, and `g_error` ends the process.
unfoldable pub load_conf : Option KeyFile → Run (Option Settings)
unfolding read_settings
load_conf none = exits
load_conf (some file) = ok (read_settings file)

-- The even entries of `ips`: the masters that `initHost` writes to `host_masters`.
unfoldable pub masters : List Text → List (Option Text)
masters [] = []
masters (m ∷ []) = some m ∷ []
masters (m ∷ b ∷ ips) = some m ∷ masters ips

-- The second loop of `initHost`, with the uninitialised value that each `ht_set` hashes from. A
-- last entry without a backup is read past the end.
unfoldable pub add_backups : List ℕ → List Text → HashTable → Option HashTable
add_backups garbage [] t = some t
add_backups garbage (m ∷ []) t = none
add_backups [] (m ∷ b ∷ ips) t = ht_set all_succeed 0 t m b >>=? add_backups [] ips
add_backups (u ∷ garbage) (m ∷ b ∷ ips) t = ht_set all_succeed u t m b >>=? add_backups garbage ips

-- For the case that every allocation succeeds. `none` is undefined behaviour: an entry past the end.
unfoldable pub init_host : List ℕ → List Text → Option Hosts
unfolding masters add_backups
init_host garbage ips = ht_create true true 65536 >>=? add_backups garbage ips >>=? λ table.
    some (record {
      host_masters = masters ips;
      host_master_num = length (masters ips);
      hashtable = table;
    })

-- The globals before `connectToMaster`. The queue is not initialised yet: its semaphore is all
-- zeros, so it has no permit.
unfoldable pub initial : {W : Type 0} → Settings → Hosts → W → Globals W
initial conf hosts w = record {
  conf = conf;
  hosts = hosts;
  master_fd = none;
  client_fd = none;
  read_fd = none;
  listen_fd = none;
  time_event_id = some 0;
  phase = start;
  bulk_size = 0;
  cronloops = 0;
  buf_master_cmd = record { len = 0; bytes = [] };
  buf_slave_answer = record { len = 0; bytes = [] };
  queue = record { items = cleared_items; front = 0; rear = 0; count = 0; sem = 0 };
  world = w;
}

module _ {W J : Type 0} (os : Os W J) where
  -- `init_cir_queue(&q);`
  unfoldable pub start_queue : Bool → M W (Unit {0})
  start_queue sem_alloc g = elim (init_cir_queue sem_alloc) [
    | none ↦ exits
    | some q ↦ ok (tt, record g { queue = q })
  ]

  -- The timer is set last; the result is false for `return -1`.
  unfoldable pub start_timer : M W Bool
  start_timer = do
    timer ← call os.create_time_event
    modify (λ g. record g { time_event_id = timer })
    elim timer [ none ↦ pure false | some id ↦ pure true ]

  -- `main` up to `aeMain`, with the settings read; the result is false for `return -1`.
  unfoldable pub start_up : Bool → M W Bool
  unfolding start_queue start_timer
  start_up sem_alloc = do
    connected ← connect_to_master os
    if connected then (start_queue sem_alloc >> (init_curl os >> start_timer)) else fails exits
