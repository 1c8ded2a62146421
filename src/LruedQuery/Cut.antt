-- ===== src/LruedQuery/Cut.antt =====
-- A DEL command of which a read ends with the first bytes, as `processInputBuffer` of
-- proxy/lrued_query.c meets it.
use lrued_redis_storage_iceb.Prelude.{
  ℕ, zero, suc, ◌+◌, ◌-◌, ◌≤◌, ◌<◌, ◌≡◌, ◌≢◌, refl, true, false, some, [], ◌∷◌, ◌++◌, arith, length,
  drop, ltb, strncpy, ◌∙◌, ap, sym,
}
use lrued_redis_storage_iceb.HashTable.Strcmp.{eq_of_same}
use lrued_redis_storage_iceb.State.{Text, WData, Os, Globals, ok, ◌>>◌, fails}
use lrued_redis_storage_iceb.Parser.{go_on, merged}
use lrued_redis_storage_iceb.Parser.Number.{get_or_of_drop, drop_next}
use lrued_redis_storage_iceb.LruedQuery.Del.{Del, del_bytes}
use lrued_redis_storage_iceb.LruedQuery.{
  del_command, same_text, find_star, is_del, at_star, command_loop, process_input_buffer,
}

abbrev pub NoStar : Text → Type 0
NoStar [] = Unit {0}
NoStar (c ∷ text) = (c ≢ 42) × NoStar text

find_star-behind :
    (rounds : ℕ) (before : Text) (wdata : WData) (index : ℕ) (rest : Text)
    → drop index wdata.bytes ≡ before ++ (42 ∷ rest)
    → NoStar before
    → length before ≤ rounds
    → find_star rounds wdata index ≡ index + length before
unfolding find_star
find_star-behind zero [] wdata index rest at v h = omega arith
find_star-behind zero (c ∷ before) wdata index rest at v h = absurd (omega arith)
find_star-behind (suc rounds) [] wdata index rest at v h =
    ground (arith, get_or_of_drop wdata.bytes index 42 _ at)
find_star-behind (suc rounds) (c ∷ before) wdata index rest at v h = ground (
  arith,
  get_or_of_drop wdata.bytes index c _ at,
  v.0,
  find_star-behind rounds before wdata (index + 1) rest (drop_next wdata.bytes index c _ at) v.1
      (omega arith),
)

find_star-past :
    (text : Text) (rounds : ℕ) (wdata : WData) (index : ℕ) (junk : Text)
    → drop index wdata.bytes ≡ text ++ junk
    → NoStar text
    → length text ≡ rounds
    → find_star rounds wdata index ≡ index + rounds
unfolding find_star
find_star-past [] zero wdata index junk at v h = omega arith
find_star-past [] (suc rounds) wdata index junk at v h = absurd (omega (arith, h))
find_star-past (c ∷ text) zero wdata index junk at v h = absurd (omega (arith, h))
find_star-past (c ∷ text) (suc rounds) wdata index junk at v h = ground (
  arith,
  get_or_of_drop wdata.bytes index c _ at,
  v.0,
  find_star-past text rounds wdata (index + 1) junk (drop_next wdata.bytes index c _ at) v.1
      (omega (arith, h)),
)

drop_before : (before rest : Text) → drop (length before) (before ++ rest) ≡ rest
drop_before [] rest = refl
drop_before (c ∷ before) rest = drop_before before rest

same_text-no : (a b : Text) → a ≢ b → same_text a b ≡ false
same_text-no a b h = ground (arith, h, eq_of_same a b)

module _ {W J : Type 0} (os : Os W J) where
  at_star-other :
      (wdata : WData) (index : ℕ) (g : Globals W)
      → 14 < wdata.len
      → strncpy 14 (drop index wdata.bytes) ≢ del_command
      → at_star os wdata index g ≡ ok (some (index + 14), g)
  unfolding at_star is_del
  at_star-other wdata index g long other =
      let no = same_text-no _ _ other in
      let enough : ltb 14 wdata.len ≡ true = ground (arith, long) in rw (enough, no) refl

  find_star-end :
      (wdata : WData) (index : ℕ)
      → wdata.len ≤ index
      → find_star (wdata.len - index) wdata index ≡ index
  unfolding find_star
  find_star-end wdata index h =
      let none_left : wdata.len - index ≡ 0 = omega (arith, h) in rw none_left refl

  loop-end :
      (rounds : ℕ) (wdata : WData) (index : ℕ) (g : Globals W)
      → 0 < rounds
      → wdata.len ≤ index
      → command_loop os rounds wdata index g ≡ ok (tt, g)
  unfolding command_loop
  loop-end zero wdata index g some_round h = absurd (omega arith)
  loop-end (suc rounds) wdata index g some_round h = ground (arith, find_star-end wdata index h)

  loop-none :
      (rounds : ℕ) (wdata : WData) (index star : ℕ) (g : Globals W)
      → find_star (wdata.len - index) wdata index ≡ star
      → wdata.len ≤ star
      → command_loop os (suc rounds) wdata index g ≡ ok (tt, g)
  unfolding command_loop
  loop-none rounds wdata index star g here past = ground (arith, here, past)

  loop-other :
      (rounds : ℕ) (wdata : WData) (index star : ℕ) (g : Globals W)
      → find_star (wdata.len - index) wdata index ≡ star
      → star < wdata.len
      → 14 < wdata.len
      → strncpy 14 (drop star wdata.bytes) ≢ del_command
      → command_loop os (suc rounds) wdata index g ≡ command_loop os rounds wdata (star + 14) g
  unfolding command_loop go_on
  loop-other rounds wdata index star g here inside long other =
      let inside_b : ltb star wdata.len ≡ true = ground (arith, inside) in
      let one = at_star-other wdata star g long other in
      rw (here, inside_b, command_loop)
        (ap (λ i. go_on os (at_star os wdata i g) (command_loop os rounds wdata)) here
          ∙ ap (λ r. go_on os r (command_loop os rounds wdata)) one)

  -- Of a read of more than 14 bytes that ends with at most 13 of a command, nothing is kept, if no
  -- other star stands in it and the bytes behind the read do not happen to complete a DEL: the key of
  -- a DEL that is cut there is never asked for.
  process_input_buffer-loses :
      (before cut junk : Text) (g : Globals W)
      → NoStar before
      → length cut < 13
      → 14 < length before + 1 + length cut
      → strncpy 14 (42 ∷ (cut ++ junk)) ≢ del_command
      → g.buf_master_cmd.len ≡ 0
      → process_input_buffer os
          (record { len = length before + 1 + length cut; bytes = before ++ (42 ∷ (cut ++ junk)) })
          g
        ≡ ok (tt, record g { buf_master_cmd = record (g.buf_master_cmd) { len = 0 } })
  unfolding process_input_buffer merged
  process_input_buffer-loses before cut junk g v short long other nothing_kept =
      let len = length before + 1 + length cut in
      let all : WData = record { len = len; bytes = before ++ (42 ∷ (cut ++ junk)) } in
      let g1 : Globals W = record g { buf_master_cmd = record (g.buf_master_cmd) { len = 0 } } in
      let behind = drop_before before (42 ∷ (cut ++ junk)) in
      let star : find_star (len - 0) all 0 ≡ length before =
        find_star-behind (len - 0) before all 0 (cut ++ junk) refl v (omega arith) ∙ omega arith in
      let step =
        loop-other len all 0 (length before) g1 star (omega arith) long
          (λ e. other (sym (ap (strncpy 14) behind) ∙ e)) in
      rw nothing_kept
        (step ∙ loop-end len all (length before + 14) g1 (omega arith) (omega (arith, short)))

  -- A read without a star asks for nothing and keeps nothing.
  process_input_buffer-passes :
      (text junk : Text) (g : Globals W)
      → NoStar text
      → g.buf_master_cmd.len ≡ 0
      → process_input_buffer os (record { len = length text; bytes = text ++ junk }) g
        ≡ ok (tt, record g { buf_master_cmd = record (g.buf_master_cmd) { len = 0 } })
  unfolding process_input_buffer merged
  process_input_buffer-passes text junk g v nothing_kept =
      let all : WData = record { len = length text; bytes = text ++ junk } in
      let star : find_star (length text - 0) all 0 ≡ length text =
        find_star-past text (length text - 0) all 0 junk refl v (omega arith) ∙ omega arith in
      let g1 : Globals W = record g { buf_master_cmd = record (g.buf_master_cmd) { len = 0 } } in
      rw nothing_kept (loop-none (length text) all 0 (length text) g1 star (omega arith))

  -- A DEL command of which at most 13 bytes stand at the end of a read of more than 14 bytes, and the
  -- others in the next read, is lost: its key is not asked for, nothing is kept, and nothing but that
  -- changes, if nothing was kept before, no other star stands in the two reads, and the bytes behind
  -- the first do not happen to complete a DEL.
  pub process_input_buffer-loses_del :
      (d : Del) (before cut later junk junk' : Text) (g : Globals W)
      → 42 ∷ (cut ++ later) ≡ del_bytes d
      → NoStar before
      → NoStar later
      → length cut < 13
      → 14 < length before + 1 + length cut
      → strncpy 14 (42 ∷ (cut ++ junk)) ≢ del_command
      → g.buf_master_cmd.len ≡ 0
      → (process_input_buffer os (record {
        len = length before + 1 + length cut;
        bytes = before ++ (42 ∷ (cut ++ junk));
      })
            >> process_input_buffer os (record { len = length later; bytes = later ++ junk' }))
          g
        ≡ ok (tt, record g { buf_master_cmd = record (g.buf_master_cmd) { len = 0 } })
  process_input_buffer-loses_del d before cut later junk junk' g whole v v' short long other
        nothing_kept =
      ap
        (λ r.
          (fails r
              >> process_input_buffer os (record { len = length later; bytes = later ++ junk' }))
            g)
        (process_input_buffer-loses before cut junk g v short long other nothing_kept)
      ∙ process_input_buffer-passes later junk'
          (record g { buf_master_cmd = record (g.buf_master_cmd) { len = 0 } }) v' refl
