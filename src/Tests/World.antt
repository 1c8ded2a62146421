-- ===== src/Tests/World.antt =====
-- A world in which nothing fails, and a proxy in it, for the runs of the models of proxy/.
use lrued_redis_storage_iceb.Prelude.{
  refl, true, some, List, [], ◌∷◌, ◌++◌, codes, length, replicate,
}
use lrued_redis_storage_iceb.CirQueue.{CirQueue, que_size, cleared_items, init_cir_queue}
use lrued_redis_storage_iceb.CirQueue.Valid.{IsValid, init-IsValid}
use lrued_redis_storage_iceb.Prelude.Int.{pos}
use lrued_redis_storage_iceb.State.{Text, Os, Settings, Hosts, Globals, running}

-- What was written to a descriptor or posted, the last first.
abbrev pub Log : Type 0
Log = List Text

-- Writes take everything, reads give one byte, and a JSON object is its text.
abbrev pub quiet : Os Log Text
quiet = record {
  rounds = 100;
  uninitialised = λ w. (0, w);
  stale = λ w. ([], w);
  read = λ fd size w. (record { got = some (10 ∷ []); errno = 0 }, w);
  write = λ fd text w. (record { sent = some (length text); errno = 0 }, text ∷ w);
  close = λ fd w. w;
  tcp_connect = λ ip port w. (some 3, w);
  tcp_server = λ port ip w. (some 4, w);
  tcp_accept = λ fd w. ((some 5, 0), w);
  set_option = λ opt fd w. w;
  create_file_event = λ fd handler w. (true, w);
  delete_file_event = λ fd w. w;
  create_time_event = λ w. (some 1, w);
  delete_time_event = λ id w. w;
  json_object = [];
  json_object_set = λ json name value. json ++ (name ++ value);
  json_dumps = λ json. some json;
  curl_global_init = λ w. w;
  curl_init = λ w. (true, w);
  curl_escape = λ text. text;
  curl_post = λ url value w. (true, (url ++ value) ∷ w);
  md5_buffer = replicate 64 7;
  strtoull = λ text. length text;
}

abbrev pub settings : Settings
settings = record {
  listen_port = pos 7000;
  self_ip = codes "10.0.0.1";
  master_ip = codes "10.0.0.2";
  master_port = pos 6379;
  slave_ip = codes "10.0.0.3";
  slave_port = pos 6380;
  ips = codes "10.0.0.4" ∷ codes "10.0.0.5" ∷ [];
}

abbrev pub hosts : Hosts
hosts = record {
  host_masters = some (codes "10.0.0.4") ∷ [];
  host_master_num = 1;
  hashtable = record { size = 1; table = [] ∷ [] };
}

abbrev pub fresh_queue : {A : Type 0} → CirQueue A
fresh_queue = record { items = cleared_items; front = 0; rear = 0; count = 0; sem = que_size }

pub fresh_queue-IsValid : {A : Type 0} → IsValid (fresh_queue {A = A})
unfolding init_cir_queue
fresh_queue-IsValid {A} = (init-IsValid {A = A} refl).0

-- Connected, with `kept` of an answer read before.
abbrev pub connected : Text → Globals Log
connected kept = record {
  conf = settings;
  hosts = hosts;
  master_fd = some 3;
  client_fd = some 5;
  read_fd = some 6;
  listen_fd = some 4;
  time_event_id = some 1;
  phase = running;
  bulk_size = 0;
  cronloops = 0;
  buf_master_cmd = record { len = 0; bytes = [] };
  buf_slave_answer = record { len = length kept; bytes = kept };
  queue = fresh_queue;
  world = [];
}

-- Connected, with `kept` of a command read before.
abbrev pub with_command : Text → Globals Log
with_command kept = record (connected []) {
  buf_master_cmd = record { len = length kept; bytes = kept };
}
