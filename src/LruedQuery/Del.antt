-- ===== src/LruedQuery/Del.antt =====
-- The DEL commands of the master as proxy/lrued_query.c meets them: each key is asked for.
use lrued_redis_storage_iceb.Prelude.{
  ℕ, zero, suc, ◌+◌, ◌-◌, ◌≤◌, ◌<◌, ◌≡◌, refl, true, some, List, [], ◌∷◌, ◌++◌, arith, length, drop,
  ltb, strncpy, strcmp, ◌∙◌, ap, fun_ext, length-append, append_assoc,
}
use lrued_redis_storage_iceb.Prelude.Int.{pos}
use lrued_redis_storage_iceb.State.{Text, WData, Os, Globals, M, ◌>>=◌, ◌>>◌, pure, call}
use lrued_redis_storage_iceb.Parser.{byte_at, number_from, go_on}
use lrued_redis_storage_iceb.Parser.Number.{
  get_or_of_drop, drop_past, IsDigits, value_of, read_number_lem, NoNul, strncpy_whole,
}
use lrued_redis_storage_iceb.Parser.Reply.{max_len}
use lrued_redis_storage_iceb.Parser.Answers.{merged_lem, go_on-pure}
use lrued_redis_storage_iceb.LruedQuery.{
  del_command, same_text, find_star, query_key, del_key, del_parser, is_del, at_star, command_loop,
  process_input_buffer,
}

-- A DEL of one key, with the digits of its length.
pub record Del : Type 0 where
  pub digits : Text
  pub key : Text

pub record IsDel (d : Del) : Type 0 where
  pub numeral : IsDigits d.digits
  pub counts : value_of 0 d.digits ≡ length d.key
  pub not_empty : 0 < length d.key
  pub no_nul : NoNul d.key

-- `*2\r\n$3\r\nDEL\r\n$<digits>\r\n<key>\r\n`
unfoldable pub del_bytes : Del → Text
del_bytes d = del_command ++ (d.digits ++ (13 ∷ 10 ∷ (d.key ++ (13 ∷ 10 ∷ []))))

length-del_bytes : (d : Del) → length (del_bytes d) ≡ length d.digits + length d.key + 18
unfolding del_bytes
length-del_bytes d = omega (
  arith,
  length-append d.digits (13 ∷ 10 ∷ (d.key ++ (13 ∷ 10 ∷ []))),
  length-append d.key (13 ∷ 10 ∷ []),
)

module _ (wdata : WData) (start : ℕ) (d : Del) (rest : List ℕ)
    (at : drop start wdata.bytes ≡ del_bytes d ++ rest) where
  command_on :
      drop start wdata.bytes ≡ del_command ++ (d.digits ++ (13 ∷ 10 ∷ (d.key ++ (13 ∷ 10 ∷ rest))))
  unfolding del_bytes
  command_on = at ∙ simp append_assoc

  star_here : byte_at wdata start ≡ 42
  star_here = get_or_of_drop wdata.bytes start 42 _ command_on

  dollar_here : byte_at wdata (start + 13) ≡ 36
  dollar_here =
      get_or_of_drop wdata.bytes (start + 13) 36 _
        (drop_past wdata.bytes start (take_13 del_command) _ command_on)
    where
      take_13 : Text → Text
      take_13 l = 42 ∷ 50 ∷ 13 ∷ 10 ∷ 36 ∷ 51 ∷ 13 ∷ 10 ∷ 68 ∷ 69 ∷ 76 ∷ 13 ∷ 10 ∷ []

  digits_on : drop (start + 14) wdata.bytes ≡ d.digits ++ (13 ∷ 10 ∷ (d.key ++ (13 ∷ 10 ∷ rest)))
  digits_on = drop_past wdata.bytes start del_command _ command_on

  key_on : drop (start + 14 + length d.digits + 2) wdata.bytes ≡ d.key ++ (13 ∷ 10 ∷ rest)
  key_on =
      drop_past wdata.bytes (start + 14 + length d.digits) (13 ∷ 10 ∷ []) _
        (drop_past wdata.bytes (start + 14) d.digits _ digits_on)

  command_copied : strncpy 14 (drop start wdata.bytes) ≡ del_command
  command_copied = rw command_on (strncpy_whole del_command _ (omega arith))

  module _ (v : IsDel d) (short : wdata.len ≤ max_len)
      (whole : start + length (del_bytes d) ≤ wdata.len) where
    key_number :
        number_from wdata (start + 14) ≡ some (pos (length d.key), start + 14 + length d.digits)
    key_number = rw (← v.counts) (
        read_number_lem (wdata.len - (start + 14)) wdata (start + 14) 0 d.digits _ digits_on
          v.numeral (omega (arith, v.counts, length-del_bytes d))
          (omega (arith, length-del_bytes d)))

    key_copied :
        strncpy (length d.key) (drop (start + 14 + length d.digits + 2) wdata.bytes) ≡ d.key
    key_copied = rw key_on (strncpy_whole d.key _ v.no_nul)

    module _ {W J : Type 0} (os : Os W J) where
      -- The key of a whole DEL is asked for, and the next index is behind it.
      del_parser_lem :
          (g : Globals W)
          → del_parser os wdata start g
            ≡ (query_key os (length d.key) d.key >> pure (some (start + length (del_bytes d)))) g
      unfolding del_parser del_key
      del_parser_lem g = ground (arith, dollar_here, key_number, key_copied, length-del_bytes d)

module _ {W J : Type 0} (os : Os W J) where
  -- What becomes of one DEL: the byte behind `cmp` is looked at, and the key is asked for.
  unfoldable pub ask : Del → M W (Unit {0})
  ask d = call os.uninitialised >>= λ _. query_key os (length d.key) d.key

  unfoldable pub ask_all : List Del → M W (Unit {0})
  ask_all [] = pure tt
  ask_all (d ∷ ds) = ask d >> ask_all ds

  same_command : same_text del_command del_command ≡ true
  unfolding strcmp
  same_command = refl

  at_star_lem :
      (wdata : WData) (start : ℕ) (d : Del) (rest : List ℕ)
      → drop start wdata.bytes ≡ del_bytes d ++ rest
      → IsDel d
      → wdata.len ≤ max_len
      → start + length (del_bytes d) ≤ wdata.len
      → ((w : W) → (os.uninitialised w).0 ≡ 0)
      → (g : Globals W)
      → at_star os wdata start g ≡ (ask d >> pure (some (start + length (del_bytes d)))) g
  unfolding at_star is_del ask
  at_star_lem wdata start d rest at v short whole zeroed g = ground (
    arith,
    command_copied wdata start d rest at,
    same_command,
    zeroed g.world,
    length-del_bytes d,
    del_parser_lem wdata start d rest at v short whole os
        (record g { world = (os.uninitialised g.world).1 }),
  )

unfoldable pub dels_bytes : List Del → Text
dels_bytes [] = []
dels_bytes (d ∷ ds) = del_bytes d ++ dels_bytes ds

abbrev pub AllDels : List Del → Type 0
AllDels [] = Unit {0}
AllDels (d ∷ ds) = IsDel d × AllDels ds

find_star_at :
    (rounds : ℕ) (wdata : WData) (index : ℕ)
    → byte_at wdata index ≡ 42
    → find_star rounds wdata index ≡ index
unfolding find_star
find_star_at zero wdata index e = refl
find_star_at (suc rounds) wdata index e = ground (arith, e)

find_star_none :
    (wdata : WData) (index : ℕ)
    → index ≡ wdata.len
    → find_star (wdata.len - index) wdata index ≡ index
unfolding find_star
find_star_none wdata index e =
    let none_left : wdata.len - index ≡ 0 = omega (arith, e) in rw none_left refl

dels_long : (ds : List Del) → length ds ≤ length (dels_bytes ds)
unfolding dels_bytes
dels_long [] = omega arith
dels_long (d ∷ ds) =
    omega (arith, dels_long ds, length-append (del_bytes d) (dels_bytes ds), length-del_bytes d)

module _ {W J : Type 0} (os : Os W J) where
  command_loop_lem :
      (ds : List Del) (rounds : ℕ) (wdata : WData) (index : ℕ) (rest : List ℕ) (g : Globals W)
      → AllDels ds
      → wdata.len ≤ max_len
      → drop index wdata.bytes ≡ dels_bytes ds ++ rest
      → index + length (dels_bytes ds) ≡ wdata.len
      → length ds < rounds
      → ((w : W) → (os.uninitialised w).0 ≡ 0)
      → command_loop os rounds wdata index g ≡ ask_all os ds g
  unfolding command_loop ask_all dels_bytes
  command_loop_lem ds zero wdata index rest g v short at whole enough zeroed = absurd (omega arith)
  command_loop_lem [] (suc rounds) wdata index rest g v short at whole enough zeroed =
      ground (arith, find_star_none wdata index (omega arith))
  command_loop_lem (d ∷ ds) (suc rounds) wdata index rest g v short at whole enough zeroed =
      let at' = at ∙ append_assoc (del_bytes d) (dels_bytes ds) rest in
      let sizes = length-append (del_bytes d) (dels_bytes ds) in
      let next = index + length (del_bytes d) in
      let here = find_star_at (wdata.len - index) wdata index (star_here wdata index d _ at') in
      let inside : ltb index wdata.len ≡ true = ground (arith, sizes, length-del_bytes d, whole) in
      let one = at_star_lem os wdata index d _ at' v.0 short (omega (arith, sizes)) zeroed g in
      let more = fun_ext (λ g'.
        command_loop_lem ds rounds wdata next rest g' v.1 short
          (drop_past wdata.bytes index (del_bytes d) _ at') (omega (arith, sizes)) (omega arith)
          zeroed) in
      rw (here, inside, command_loop)
        (ap (λ i. go_on os (at_star os wdata i g) (command_loop os rounds wdata)) here
          ∙ ap (λ r. go_on os r (command_loop os rounds wdata)) one
          ∙ go_on-pure os (ask os d) next (command_loop os rounds wdata) g
          ∙ ap (λ (k : M W (Unit {0})). (ask os d >> k) g) more)

  -- A read that completes what was kept to whole DEL commands of one key each ends, and asks the
  -- slave for each key, in the order of arrival. It does not matter where the text was cut, nor
  -- what else stands in the arrays. The byte that the comparison reads behind `cmp` is taken to be
  -- a NUL, and the text to have no NUL and to be shorter than the array.
  pub process_input_buffer-dels :
      (ds : List Del) (kept chunk junk stale : Text) (g : Globals W)
      → AllDels ds
      → kept ++ chunk ≡ dels_bytes ds
      → NoNul kept
      → NoNul chunk
      → length (dels_bytes ds) < max_len
      → ((w : W) → (os.uninitialised w).0 ≡ 0)
      → g.buf_master_cmd ≡ record { len = length kept; bytes = kept ++ junk }
      → process_input_buffer os (record { len = length chunk; bytes = chunk ++ stale }) g
        ≡ ask_all os ds (record g { buf_master_cmd = record { len = 0; bytes = kept ++ junk } })
  unfolding process_input_buffer
  process_input_buffer-dels ds kept chunk junk stale g v whole clean clean' short zeroed buffered =
      let (rest, e) =
        merged_lem kept chunk junk stale g.buf_master_cmd (ap (λ (b : WData). b.len) buffered)
          (ap (λ (b : WData). b.bytes) buffered) clean clean' (rw whole short) in
      rw (e, whole, buffered)
        (command_loop_lem ds _ (record { len = _; bytes = _ }) 0 rest _ v (omega arith) refl
          (omega arith) (omega (arith, dels_long ds)) zeroed)
