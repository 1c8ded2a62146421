-- ===== src/Client.antt =====
-- client/src/main/java/com/ifeng/iceberg: PropertiesUtils.java, the settings of the client, and
-- IcebergClient.java, the URL at which a file server is asked for a key. `none` is an exception.
pub mod Directories
pub mod Position
use lrued_redis_storage_iceb.Prelude.{
  ℕ, zero, suc, ◌+◌, ◌-◌, ◌/◌, ◌%◌, Bool, true, false, ◌&&◌, Option, none, some, List, [], ◌∷◌,
  ◌++◌, ◌==◌, leb, ltb, if◌then◌else◌, length, drop, replicate, get_elem?, codes, strcmp, Order,
}
use lrued_redis_storage_iceb.State.{Text}

infixl 5 ◌>>=◌
abbrev ◌>>=◌ : {A B : Type 0} → Option A → (A → Option B) → Option B
r >>= f = elim r [ none ↦ none | some a ↦ f a ]

-- The settings by name; of two entries for a name the first counts.
abbrev SysProps : Type 0
SysProps = List (Text × Text)

abbrev is_same : Text → Text → Bool
is_same a b = elim (strcmp a b) [ Order.same ↦ true | _ ↦ false ]

-- `sysProps.get(key)`
unfoldable pub get_sys_property : SysProps → Text → Option Text
get_sys_property [] key = none
get_sys_property ((name, value) ∷ rest) key =
    if is_same name key then some value else get_sys_property rest key

-- `path.toString().endsWith(".conf")`
unfoldable pub is_conf : Text → Bool
is_conf path = leb 5 (length path) && is_same (drop (length path - 5) path) (codes ".conf")

-- The `static` block over the files of the directory, in its order: the entries of each file
-- replace those of the files before. A file that cannot be read is only logged.
unfoldable pub load_files : List (Text × Option SysProps) → SysProps → SysProps
load_files [] sys_props = sys_props
load_files ((path, loaded) ∷ rest) sys_props = load_files rest (
    if is_conf path
    then elim loaded [ none ↦ sys_props | some props ↦ props ++ sys_props ]
    else sys_props)

-- `String.format("%03d", n)`: the decimal digits of an `int`, which are at most ten, with zeros in
-- front up to three.
unfoldable pub decimal : ℕ → ℕ → Text
decimal zero n = []
decimal (suc places) n =
    let front = decimal places (n / 10) in
    if ltb n 10 then (n + 48) ∷ [] else front ++ ((n % 10 + 48) ∷ [])

unfoldable pub format_03d : ℕ → Text
format_03d n = let digits = decimal 10 n in replicate (3 - length digits) 48 ++ digits

-- `total += 0x0FF & b` over the bytes of a digest, each as its eight bits or more.
unfoldable pub total_of : List ℕ → ℕ
total_of [] = 0
total_of (b ∷ bs) = b % 256 + total_of bs

-- What the client calls. `W` is the state of the world.
pub record Jdk (W : Type 0) : Type 0 where
  pub get_bytes : Text → Text
  pub md5 : Text → List ℕ
  pub next_int : ℕ → W → ℕ × W
  pub url_encode : Text → Text
  pub split : Text → Text → List Text
  pub parse_int : Text → Option ℕ

-- `ips` holds the masters and the slaves. A negative `dir_num` is not modelled.
pub record IcebergClient : Type 0 where
  pub dir_num : ℕ
  pub ips : List (List Text)

module _ {W : Type 0} (jdk : Jdk W) where
  -- The private constructor.
  unfoldable pub new_client : SysProps → Option IcebergClient
  new_client props = do
    masters ← get_sys_property props (codes "masters")
    slaves ← get_sys_property props (codes "slaves")
    number ← get_sys_property props (codes "dir_num")
    dir_num ← jdk.parse_int number
    some (record {
      dir_num = dir_num;
      ips = jdk.split (codes ";") masters ∷ jdk.split (codes ";") slaves ∷ [];
    })

  -- `getInstance`, with the static `client`: what it returns is the new `client` too.
  unfoldable get_instance : Option IcebergClient → SysProps → Option IcebergClient
  get_instance none props = new_client props
  get_instance (some client) props = some client

  -- `hashtext` is computed and never used.
  unfoldable pub hash : Text → ℕ → Option ℕ
  hash input slot =
      if slot == 0 then none else some (total_of (jdk.md5 (jdk.get_bytes input)) % slot)

  unfoldable pub get_host : IcebergClient → Text → W → Option (Text × W)
  get_host client key w =
      let (drawn, w') = jdk.next_int (length client.ips) w in
      do
        address ← get_elem? client.ips drawn
        num ← hash key (length address)
        host ← get_elem? address num
        some (host, w')

  unfoldable pub get_path : IcebergClient → Text → Option Text
  get_path client key = do
    dir1 ← hash key client.dir_num
    dir2 ← hash (key ++ format_03d dir1) client.dir_num
    dir3 ← hash ((key ++ format_03d dir1) ++ format_03d dir2) client.dir_num
    some (
        47 ∷ format_03d dir1
        ++ (47 ∷ format_03d dir2 ++ (47 ∷ format_03d dir3 ++ (47 ∷ jdk.url_encode key))))

  unfoldable pub get_position : IcebergClient → Text → W → Option (Text × W)
  get_position client key w = do
    (host, w') ← get_host client key w
    path ← get_path client key
    some (codes "http://" ++ (host ++ (codes ":8090/files" ++ path)), w')
