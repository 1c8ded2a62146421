-- ===== src/Store.antt =====
-- proxy/store.c, proxy/myhash.c: a key and its value go to the file server that the key's hash
-- chooses, and to that server's backup.
pub mod Room
pub mod Replicated
use lrued_redis_storage_iceb.Prelude.{
  ℕ, ◌+◌, ◌%◌, Bool, true, false, Option, none, some, List, [], ◌∷◌, ◌++◌, ◌==◌, if◌then◌else◌,
  get_elem?, codes, c_str, length,
}
use lrued_redis_storage_iceb.HashTable.{ht_get}
use lrued_redis_storage_iceb.Md5.{md5_digest}
use lrued_redis_storage_iceb.State.{
  Text, Os, Hosts, Run, ok, exits, undefined, hangs, M, pure, ◌>>=◌, ◌>>◌, fails, gets, call, tell,
}

-- What `popHandle` is given: a JSON object, or the plain characters that `parseBulkString` passes
-- where a `json_t *` is expected. `null_object` is NULL.
pub data Payload (J : Type 0) : Type 0 where
  object : J → Payload J
  null_object : Payload J
  characters : Text → Payload J

unfoldable pub sum_bytes : List ℕ → ℕ
sum_bytes [] = 0
sum_bytes (b ∷ bs) = b + sum_bytes bs

-- `strlen(":8090/writeData?key=")` is 20, that of `"http://"` 7.
abbrev pub scheme : Text
scheme = codes "http://"

abbrev pub path : Text
path = codes ":8090/writeData?key="

-- The array that `calloc` gives for the URL.
unfoldable pub url_room : Text → Text → ℕ
url_room host key = length key + 7 + length host + 20 + 6 + 3 + 1

unfoldable pub make_url : Text → Text → Text
make_url host key = scheme ++ (host ++ (path ++ key))

module _ {W J : Type 0} (os : Os W J) where
  -- `curlInit`
  unfoldable pub init_curl : M W (Unit {0})
  init_curl = tell os.curl_global_init

  -- `hash` of myhash.c: the bytes of the MD5 digest, added up, modulo `slot`.
  unfoldable pub hash : Text → ℕ → ℕ
  unfolding sum_bytes
  hash src slot = sum_bytes (md5_digest os.md5_buffer (c_str src)) % slot

  -- The result of the request is only logged.
  unfoldable pub send_to_host : Text → Text → Text → M W (Unit {0})
  send_to_host host key value = do
    curl ← call os.curl_init
    if curl
        then (call (os.curl_post (make_url host (os.curl_escape (c_str key))) value) >>= λ _.
            pure tt)
        else pure tt

  -- The host at an index of `host_masters`; past the end it is no host at all.
  abbrev pub host_at : Hosts → ℕ → Run (Option Text)
  host_at hosts i = elim (get_elem? hosts.host_masters i) [ none ↦ undefined | some h ↦ ok h ]

  abbrev pub lookup_host : Text → M W (Option Text)
  lookup_host key g =
      if g.hosts.host_master_num == 0
      then undefined
      else elim (host_at g.hosts (hash key g.hosts.host_master_num)) [
        | ok h ↦ ok (h, g)
        | exits ↦ exits
        | undefined ↦ undefined
        | hangs ↦ hangs
      ]

  -- `sendToHost` to the host and to its backup, if it has one.
  unfoldable pub send_all : Option Text → Text → Text → M W (Unit {0})
  send_all none key value = pure tt
  send_all (some host) key value = do
    send_to_host host key value
    garbage ← call os.uninitialised
    backup ← gets (λ g. ht_get garbage g.hosts.hashtable host)
    elim backup [ none ↦ pure tt | some b ↦ send_to_host b key value ]

  -- The result says whether 1 was returned, or -1.
  unfoldable pub save_json : Option Text → Text → M W Bool
  save_json none key = pure false
  save_json (some value) key = do host ← lookup_host key; send_all host key value; pure true

  -- A `char *` is no JSON object: `json_dumps` reads what is not there.
  unfoldable pub save_value : Payload J → Text → M W Bool
  unfolding save_json
  save_value (object j) key = save_json (os.json_dumps j) key
  save_value null_object key = fails exits
  save_value (characters s) key = fails undefined
