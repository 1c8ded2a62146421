-- ===== src/WriteData.antt =====
-- nginx/lua/writeData.lua: the handler of `/writeData`, which stores a value in the file of its key.
-- It passes writeGetPath the slot 1000, where that function overruns its `url`.
use lrued_redis_storage_iceb.Prelude.{
  Bool, true, false, Option, none, some, ◌++◌, if◌then◌else◌, codes, strcmp, Order,
}
use lrued_redis_storage_iceb.State.{Text}
use lrued_redis_storage_iceb.FilePath.{Env, write_get_path}

-- What the handler calls. `W` is the state of the world. A file is told by its name.
pub record Openresty (W : Type 0) : Type 0 where
  pub unescape_uri : Option Text → Text
  -- `io.open(name, "w")`: whether there is a file, which is then empty
  pub open_file : Text → W → Bool × W
  -- `io.output(file)`; without a file it only asks which one is set
  pub set_output : Text → W → W
  pub read_body : W → W
  -- `nil` where there is no body in memory
  pub get_body_data : W → Option Text
  pub write : Text → Text → W → W
  pub close : Text → W → W
  pub say : Text → W → W

-- How the handler ends: it returns, it raises a Lua error, or writeGetPath is undefined.
pub data Ended (W : Type 0) : Type 0 where
  returned : W → Ended W
  raised : W → Ended W
  undefined_path : Ended W

-- `path == "error"`
abbrev is_error : Text → Bool
is_error path = elim (strcmp path (codes "error")) [ Order.same ↦ true | _ ↦ false ]

module _ {W C : Type 0} (env : Env W C) (ngx : Openresty W) where
  -- Behind `io.open`: `file:write` and `io.close`, where `file:write(nil)` raises an error.
  unfoldable pub store_body : Text → W → Ended W
  store_body file_name w =
      let read = ngx.read_body w in
      elim (ngx.get_body_data read) [
        | none ↦ raised read
        | some body ↦ returned (ngx.close file_name (ngx.write file_name body read))
      ]

  unfoldable pub store_file : Text → W → Ended W
  store_file file_name w =
      let (opened, w') = ngx.open_file file_name w in
      if opened
      then store_body file_name (ngx.set_output file_name w')
      else returned (ngx.say file_name (ngx.say (codes "file open fail") w'))

  -- The handler for `ngx.var.arg_key`, which is `nil` without an argument `key`. A `nil` is no
  -- string to append. writeGetPath reads the decoded key up to its first NUL.
  unfoldable pub write_data_handler : Option Text → W → Ended W
  write_data_handler key w = elim (write_get_path env (ngx.unescape_uri key) 1000 w) [
    | none ↦ undefined_path
    | some (path, w') ↦
        if is_error path
        then returned (ngx.say (codes "get path error") w')
        else elim key [ none ↦ raised w' | some name ↦ store_file (path ++ name) w' ]
  ]
