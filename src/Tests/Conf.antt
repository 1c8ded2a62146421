-- ===== src/Tests/Conf.antt =====
-- Runs of `load_conf` of proxy/read_conf.c.
use lrued_redis_storage_iceb.Prelude.{◌*◌, ◌≡◌, refl, some, [], ◌∷◌, arith, length}
use lrued_redis_storage_iceb.Prelude.Int.{pos}
use lrued_redis_storage_iceb.State.{Settings, Hosts}
use lrued_redis_storage_iceb.Startup.{KeyFile, load_conf, init_host}
use lrued_redis_storage_iceb.Startup.Conf.{load_conf-init_host}
use lrued_redis_storage_iceb.Tests.Backups.{berlin, bergen, berlin_name, bergen_name}

-- Every port is 7000, and every name one server.
abbrev file : KeyFile
file = record {
  get_integer = λ name. pos 7000;
  get_string = λ name. some berlin;
  get_string_list = λ name. some (berlin ∷ bergen ∷ bergen ∷ berlin ∷ []);
}

abbrev conf : Settings
conf = record {
  listen_port = pos 7000;
  self_ip = berlin;
  master_ip = berlin;
  master_port = pos 7000;
  slave_ip = berlin;
  slave_port = pos 7000;
  ips = berlin ∷ bergen ∷ bergen ∷ berlin ∷ [];
}

load_conf-init_host_example :
    (h : Hosts) × (init_host (5 ∷ []) conf.ips ≡ some h)
    × (h.host_master_num * 2 ≡ 4)
    × (h.host_master_num ≡ length h.host_masters)
unfolding load_conf
load_conf-init_host_example =
    load_conf-init_host file conf (5 ∷ []) refl (berlin_name, (bergen_name, tt)) (omega arith, tt)
