-- ===== src/LruedQuery.antt =====
-- proxy/lrued_query.c: the commands from the master to the slave, and the query for the value of
-- each key that a DEL is about to remove.
pub mod Query
pub mod Ends
pub mod Rounds
pub mod Cut
pub mod Del
use lrued_redis_storage_iceb.Prelude.{
  ℕ, zero, suc, ◌+◌, ◌-◌, Bool, true, false, not, Option, none, some, [], ◌∷◌, ◌++◌, ◌==◌, ltb, leb,
  if◌then◌else◌, drop, strncpy, strcmp, Order, codes,
}
use lrued_redis_storage_iceb.Prelude.Int.{ℤ, pos, negsuc}
use lrued_redis_storage_iceb.CirQueue.{is_full_cir_queue, push_cir_queue}
use lrued_redis_storage_iceb.State.{
  Text, WData, Os, ok, undefined, hangs, M, pure, ◌>>=◌, ◌>>◌, fails, gets, modify, call, on_queue,
  change_queue,
}
use lrued_redis_storage_iceb.Io.{write_data}
use lrued_redis_storage_iceb.Parser.{byte_at, int_max, save_to_buf, number_from, go_on, merged}

-- `cmd` of `queryKey`, for a key of `len` bytes.
unfoldable pub hgetall : ℕ → Text → Text
hgetall len key = codes "hgetall " ++ (strncpy len key ++ (13 ∷ 10 ∷ []))

-- `cmp1` of `processInputBuffer`.
abbrev pub del_command : Text
del_command =
    codes "*2" ++ (13 ∷ 10 ∷ codes "$3" ++ (13 ∷ 10 ∷ codes "DEL" ++ (13 ∷ 10 ∷ codes "$")))

-- `strcmp(a, b) == 0`
abbrev pub same_text : Text → Text → Bool
same_text a b = elim (strcmp a b) [ Order.same ↦ true | _ ↦ false ]

-- `while(data[index] != '*' && index < len) index++;`
unfoldable pub find_star : ℕ → WData → ℕ → ℕ
find_star zero wdata index = index
find_star (suc rounds) wdata index =
    if byte_at wdata index == 42 then index else find_star rounds wdata (index + 1)

module _ {W J : Type 0} (os : Os W J) where
  unfoldable pub query_key : ℕ → Text → M W (Unit {0})
  query_key len key = do
    full ← on_queue is_full_cir_queue
    if full
        then pure tt
        else (gets (λ g. g.read_fd) >>= λ fd. write_data os fd (hgetall len key) >>= λ wr. elim wr [
          | none ↦ pure tt
          | some n ↦ change_queue (λ q. push_cir_queue q (some key))
        ])

  -- `saveToBuf(wdata, start, &buf_master_cmd);`
  unfoldable pub keep_command : WData → ℕ → M W (Unit {0})
  keep_command wdata start =
      modify (λ g. record g { buf_master_cmd = save_to_buf wdata start g.buf_master_cmd })

  -- `delParser` behind the two bytes after the length: `index` is the start of the key.
  unfoldable pub del_key : WData → ℕ → ℕ → ℤ → M W (Option ℕ)
  del_key wdata start index (negsuc n) = fails undefined
  del_key wdata start index (pos len) =
      if ltb int_max (index + len + 2)
      then fails undefined
      else if leb (index + len) wdata.len
      then (query_key len (strncpy len (drop index wdata.bytes)) >> pure (some (index + len + 2)))
      else (keep_command wdata start >> pure (some (index + len + 2)))

  -- The result is `none` for -1.
  unfoldable pub del_parser : WData → ℕ → M W (Option ℕ)
  unfolding keep_command
  del_parser wdata start =
      if not (byte_at wdata (start + 13) == 36)
      then pure none
      else if leb wdata.len (start + 14)
      then (keep_command wdata start >> pure none)
      else elim (number_from wdata (start + 14)) [
        | none ↦ fails undefined
        | some (len, behind) ↦
            if leb wdata.len (behind + 2)
            then (keep_command wdata start >> pure none)
            else del_key wdata start (behind + 2) len
      ]

  -- `strcmp(cmp, cmp1) == 0`: `cmp` has no room for a NUL behind its 14 bytes, so the comparison
  -- goes on to the byte that stands behind it.
  unfoldable pub is_del : WData → ℕ → M W Bool
  is_del wdata index =
      if same_text (strncpy 14 (drop index wdata.bytes)) del_command
      then (call os.uninitialised >>= λ behind. pure (behind == 0))
      else pure false

  -- A `*` was found at `index`; the result is the next index, `none` for `break`. At index 0 a short
  -- read is saved from one byte in front of its array.
  unfoldable pub at_star : WData → ℕ → M W (Option ℕ)
  unfolding keep_command
  at_star wdata index =
      if ltb 14 wdata.len
      then (is_del wdata index >>= λ del.
          if del then del_parser wdata index else pure (some (index + 14)))
      else if index == 0
      then fails undefined
      else (keep_command wdata (index - 1) >> pure none)

  -- The index grows in each round, so `len` rounds serve.
  unfoldable pub command_loop : ℕ → WData → ℕ → M W (Unit {0})
  command_loop zero wdata index g = hangs
  command_loop (suc rounds) wdata index g =
      let star = find_star (wdata.len - index) wdata index in
      elim (ltb star wdata.len) [
        | false ↦ ok (tt, g)
        | true ↦ go_on os (at_star wdata star g) (command_loop rounds wdata)
      ]

  unfoldable pub process_input_buffer : WData → M W (Unit {0})
  process_input_buffer wdata = do
    buf ← gets (λ g. g.buf_master_cmd)
    modify (λ g. record g { buf_master_cmd = record (g.buf_master_cmd) { len = 0 } })
    command_loop (suc (merged buf wdata).len) (merged buf wdata) 0
