-- ===== src/Startup/Conf.antt =====
-- The settings that `load_conf` of proxy/read_conf.c lets through, and what `initHost` of
-- proxy/main.c makes of them.
use lrued_redis_storage_iceb.Prelude.{
  ℕ, ◌*◌, ◌%◌, ◌≡◌, ◌≢◌, zero, suc, refl, Option, none, some, List, [], ◌∷◌, arith, codes, length,
  ◌∙◌, ap, sym,
}
use lrued_redis_storage_iceb.Prelude.Int.{ℤ, pos, negsuc}
use lrued_redis_storage_iceb.HashTable.Lookup.{IsName}
use lrued_redis_storage_iceb.State.{Text, Settings, Hosts, ok, exits, undefined, hangs}
use lrued_redis_storage_iceb.Startup.{
  KeyFile, ◌>>=?◌, nonzero, port_of, pairs_of, read_settings, load_conf, init_host,
}
use lrued_redis_storage_iceb.Startup.Backups.{
  Server, ips_of, masters_of, AllBelow, init_host-backups,
}

-- Every other entry is a name, from the first on.
abbrev pub AreNames : List Text → Type 0
AreNames [] = Unit {0}
AreNames (m ∷ []) = Unit {0}
AreNames (m ∷ b ∷ ips) = IsName m × AreNames ips

servers_of :
    (ips : List Text)
    → length ips % 2 ≡ 0
    → AreNames ips
    → (ss : List Server) × (ips_of ss ≡ ips) × (length (masters_of ss) * 2 ≡ length ips)
unfolding ips_of masters_of
servers_of [] even names = ([], refl, refl)
servers_of (m ∷ []) even names = absurd (omega (arith, even))
servers_of (m ∷ (b ∷ ips)) even names =
    let (ss, same, twice) = servers_of ips (omega (arith, even)) names.1 in
    (
      record { master = m; backup = b; is_name = names.0 } ∷ ss,
      ap (λ l. m ∷ (b ∷ l)) same,
      omega (arith, twice),
    )

bind_some :
    {A B : Type 0} (o : Option A) (f : A → Option B) {b : B}
    → (o >>=? f) ≡ some b
    → (a : A) × (o ≡ some a) × (f a ≡ some b)
bind_some none f e = absurd (ground (arith, e))
bind_some (some a) f e = (a, refl, e)

nonzero-some : (n port : ℤ) → nonzero n ≡ some port → (port ≡ n) × (port ≢ pos 0)
nonzero-some (pos zero) port e = absurd (ground (arith, e))
nonzero-some (pos (suc n)) port e = ground (arith, e)
nonzero-some (negsuc n) port e = ground (arith, e)

port_of-some :
    (file : KeyFile) (name : Text) (port : ℤ)
    → port_of file name ≡ some port
    → (port ≡ file.get_integer name) × (port ≢ pos 0)
unfolding port_of
port_of-some file name port e = nonzero-some (file.get_integer name) port e

pairs_of-some :
    (file : KeyFile) (ips : List Text)
    → pairs_of file ≡ some ips
    → (file.get_string_list (codes "ips") ≡ some ips) × (length ips % 2 ≡ 0)
unfolding pairs_of
pairs_of-some file ips e = ground (arith, e)

some_name : IsName (codes "ab")
some_name = record { front = []; before_last = 97; last = 98; spelled = refl; ascii = omega arith }

pub some_inj : {A : Type 0} {x y : A} → some x ≡ some y → x ≡ y
some_inj e = cc e

ok_inj : {A : Type 0} {x y : A} → ok x ≡ ok y → x ≡ y
ok_inj {x = x} e = ap (λ r. elim r [ ok z ↦ z | exits ↦ x | undefined ↦ x | hangs ↦ x ]) e

-- Settings that are let through are those of the file: no port is 0, and the servers come in pairs.
pub load_conf-reads :
    (file : KeyFile) (conf : Settings)
    → load_conf (some file) ≡ ok (some conf)
    → (conf.listen_port ≡ file.get_integer (codes "listen_port"))
      × (conf.master_port ≡ file.get_integer (codes "master_port"))
      × (conf.slave_port ≡ file.get_integer (codes "slave_port"))
      × (conf.listen_port ≢ pos 0)
      × (conf.master_port ≢ pos 0)
      × (conf.slave_port ≢ pos 0)
      × (file.get_string (codes "self_ip") ≡ some conf.self_ip)
      × (file.get_string (codes "master_ip") ≡ some conf.master_ip)
      × (file.get_string (codes "slave_ip") ≡ some conf.slave_ip)
      × (file.get_string_list (codes "ips") ≡ some conf.ips)
      × (length conf.ips % 2 ≡ 0)
unfolding load_conf read_settings
load_conf-reads file conf loaded =
    let e : read_settings file ≡ some conf = ok_inj loaded in
    let (listen, e1, r1) = bind_some (port_of file (codes "listen_port")) _ e in
    let (self, e2, r2) = bind_some (file.get_string (codes "self_ip")) _ r1 in
    let (master, e3, r3) = bind_some (file.get_string (codes "master_ip")) _ r2 in
    let (master_port, e4, r4) = bind_some (port_of file (codes "master_port")) _ r3 in
    let (slave, e5, r5) = bind_some (file.get_string (codes "slave_ip")) _ r4 in
    let (slave_port, e6, r6) = bind_some (port_of file (codes "slave_port")) _ r5 in
    let (ips, e7, r7) = bind_some (pairs_of file) _ r6 in
    let same = some_inj r7 in
    let l = port_of-some file (codes "listen_port") listen e1 in
    let m = port_of-some file (codes "master_port") master_port e4 in
    let s = port_of-some file (codes "slave_port") slave_port e6 in
    let pairs = pairs_of-some file ips e7 in
    rw (← same) (l.0, m.0, s.0, l.1, m.1, s.1, e2, e3, e5, pairs.0, pairs.1)

-- If every allocation succeeds, settings that are let through make initHost run, with half as many
-- servers as there are entries, if every other entry is an ASCII name of two characters or more, and
-- no uninitialised hash value is ULONG_MAX.
pub load_conf-init_host :
    (file : KeyFile) (conf : Settings) (garbage : List ℕ)
    → load_conf (some file) ≡ ok (some conf)
    → AreNames conf.ips
    → AllBelow garbage
    → (h : Hosts) × (init_host garbage conf.ips ≡ some h)
      × (h.host_master_num * 2 ≡ length conf.ips)
      × (h.host_master_num ≡ length h.host_masters)
load_conf-init_host file conf garbage e names below =
    let (lp, mp, sp, l, m, s, self, master, slave, ips, even) = load_conf-reads file conf e in
    let (ss, same, twice) = servers_of conf.ips even names in
    let (h, made, hosts, counted, found) =
      init_host-backups ss garbage (codes "ab") some_name 0 below (omega arith) in
    (
      h,
      ap (init_host garbage) (sym same) ∙ made,
      omega (arith, counted, twice),
      counted ∙ sym (ap length hosts),
    )
