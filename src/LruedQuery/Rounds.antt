-- ===== src/LruedQuery/Rounds.antt =====
-- The loop of `processInputBuffer` in proxy/lrued_query.c goes forward at each star, and ends.
use lrued_redis_storage_iceb.Prelude.{
  ℕ, zero, suc, ◌+◌, ◌-◌, ◌≤◌, ◌<◌, ◌≡◌, refl, Bool, true, false, Bool-cases, inl, inr, Option,
  none, some, ◌≢◌, ◌==◌, if◌then◌else◌, arith, drop, ltb, leb, strncpy,
}
use lrued_redis_storage_iceb.Prelude.Int.{ℤ, pos, negsuc}
use lrued_redis_storage_iceb.CirQueue.Valid.{IsValid}
use lrued_redis_storage_iceb.LruedQuery.Ends.{
  HasQueue, Ends, query_key-Ends, keep_command-Ends, is_del-Ends,
}
use lrued_redis_storage_iceb.Parser.Ends.{EndsIn, bind-EndsIn}
use lrued_redis_storage_iceb.Queries.Asked.{IsOpen}
use lrued_redis_storage_iceb.State.{
  WData, Os, Globals, M, Run, ok, exits, undefined, hangs, ◌>>=◌, ◌>>◌, pure, fails,
}
use lrued_redis_storage_iceb.Parser.{
  go_on, number_from, read_number, add_digit, byte_at, cr, merged,
}
use lrued_redis_storage_iceb.LruedQuery.{
  find_star, del_key, del_parser, is_del, at_star, command_loop, query_key, keep_command,
  process_input_buffer,
}

le-find_star : (rounds : ℕ) (wdata : WData) (index : ℕ) → index ≤ find_star rounds wdata index
unfolding find_star
le-find_star zero wdata index = omega arith
le-find_star (suc rounds) wdata index = ground (arith, le-find_star rounds wdata (index + 1))

le-read_number :
    (rounds : ℕ) (wdata : WData) (index : ℕ) (n m : ℤ) (k : ℕ)
    → read_number rounds wdata index n ≡ some (m, k)
    → index ≤ k
unfolding read_number
le-read_number zero wdata index n m k e = ground (arith, e)
le-read_number (suc rounds) wdata index n m k e = elim (Bool-cases (byte_at wdata index == cr)) [
  | inl ends ↦ ground (arith, e, ends)
  | inr goes ↦
      by_digit (add_digit n (byte_at wdata index)) refl goes
        (λ n'. le-read_number rounds wdata (index + 1) n' m k)
]
  where
    by_digit :
        (d : Option ℤ)
        → add_digit n (byte_at wdata index) ≡ d
        → (byte_at wdata index == cr) ≡ false
        → ((n' : ℤ) → read_number rounds wdata (index + 1) n' ≡ some (m, k) → index + 1 ≤ k)
        → index ≤ k
    by_digit none a goes rest = ground (arith, e, a, goes)
    by_digit (some n') a goes rest =
        let next : index + 1 ≤ k = rest n' (ground (arith, e, a, goes)) in omega (arith, next)

module _ {W J : Type 0} (os : Os W J) (open_link : IsOpen os) where
  -- The call ends, and an index that it returns is behind `star`.
  Goes : ℕ → Option ℕ → Globals W → Type 0
  Goes star next g = IsValid g.queue × ((i : ℕ) → next ≡ some i → star < i)

  record Advances (star : ℕ) (m : M W (Option ℕ)) : Type 0 where
    pub advances : (g : Globals W) → IsValid g.queue → EndsIn (Goes star) (m g)

  pure-Advances :
      (star : ℕ) (next : Option ℕ)
      → ((i : ℕ) → next ≡ some i → star < i)
      → Advances star (pure next)
  unfolding EndsIn Goes
  pure-Advances star next h = record { advances = λ g v. (v, h) }

  bind-Advances :
      {A : Type 0} (star : ℕ) (m : M W A) (f : A → M W (Option ℕ))
      → Ends m
      → ((a : A) → Advances star (f a))
      → Advances star (m >>= f)
  unfolding HasQueue
  bind-Advances star m f em af = record {
    advances = λ g v.
        bind-EndsIn HasQueue (Goes star) (m g) g f (em.ends g v) (λ a g' v'. (af a).advances g' v');
  }

  none-Advances : (star : ℕ) → Advances star (pure none)
  none-Advances star = pure-Advances star none (λ i e. absurd (ground (arith, e)))

  some-Advances : (star i : ℕ) → star < i → Advances star (pure (some i))
  some-Advances star i h = pure-Advances star (some i) (λ k e. ground (arith, e, h))

  undefined-Advances : (star : ℕ) → Advances star (fails undefined)
  unfolding EndsIn
  undefined-Advances star = record { advances = λ g v. tt }

  if-Advances :
      (star : ℕ) (c : Bool) (m k : M W (Option ℕ))
      → Advances star m
      → Advances star k
      → Advances star (if c then m else k)
  if-Advances star true m k am ak = am
  if-Advances star false m k am ak = ak

  option-Advances :
      {A : Type 0} (star : ℕ) (o : Option A) (m : M W (Option ℕ)) (f : A → M W (Option ℕ))
      → Advances star m
      → ((a : A) → o ≡ some a → Advances star (f a))
      → Advances star (elim o [ none ↦ m | some a ↦ f a ])
  option-Advances star none m f am af = am
  option-Advances star (some a) m f am af = af a refl

  del_key-Advances :
      (wdata : WData) (start index : ℕ) (len : ℤ)
      → start < index
      → Advances start (del_key os wdata start index len)
  unfolding del_key
  del_key-Advances wdata start index (negsuc n) h = undefined-Advances start
  del_key-Advances wdata start index (pos len) h =
      let next = some-Advances start (index + len + 2) (omega (arith, h)) in
      if-Advances start _ _ _ (undefined-Advances start) (
        if-Advances start _ _ _
          (bind-Advances start (query_key os len (strncpy len (drop index wdata.bytes))) _
            (query_key-Ends os open_link len _) (λ u. next))
          (bind-Advances start (keep_command os wdata start) _
            (keep_command-Ends os open_link wdata start) (λ u. next)))

  del_parser-Advances : (wdata : WData) (start : ℕ) → Advances start (del_parser os wdata start)
  unfolding del_parser
  del_parser-Advances wdata start =
      let kept : Advances start (keep_command os wdata start >> pure none) =
        bind-Advances start (keep_command os wdata start) (λ u. pure none)
          (keep_command-Ends os open_link wdata start) (λ u. none-Advances start) in
      if-Advances start _ _ _ (none-Advances start) (
        if-Advances start _ _ _ kept (
          option-Advances start (number_from wdata (start + 14)) _ _ (undefined-Advances start)
            (λ n e.
              let behind = le-read_number _ wdata (start + 14) (pos 0) n.0 n.1 e in
              if-Advances start (leb wdata.len (n.1 + 2)) _ _ kept
                (del_key-Advances wdata start (n.1 + 2) n.0 (omega (arith, behind))))))

  at_star-Advances : (wdata : WData) (star : ℕ) → Advances star (at_star os wdata star)
  unfolding at_star
  at_star-Advances wdata star =
      if-Advances star _ _ _
        (bind-Advances star (is_del os wdata star) _ (is_del-Ends os open_link wdata star) (λ del.
          if-Advances star del _ _ (del_parser-Advances wdata star)
            (some-Advances star (star + 14) (omega arith))))
        (if-Advances star _ _ _ (undefined-Advances star) (
          bind-Advances star (keep_command os wdata (star - 1)) _
            (keep_command-Ends os open_link wdata (star - 1)) (λ u. none-Advances star)))

  go_on-ends :
      (star : ℕ) (r : Run (Option ℕ × Globals W)) (rest : ℕ → M W (Unit {0}))
      → EndsIn (Goes star) r
      → ((i : ℕ) (g : Globals W) → IsValid g.queue → star < i → rest i g ≢ hangs)
      → go_on os r rest ≢ hangs
  unfolding go_on EndsIn Goes
  go_on-ends star (ok (none, g)) rest e k = ground arith
  go_on-ends star (ok (some i, g)) rest e k = k i g e.0 (e.1 i refl)
  go_on-ends star exits rest e k = ground arith
  go_on-ends star undefined rest e k = ground arith
  go_on-ends star hangs rest e k = absurd e

  loop-ends :
      (rounds : ℕ) (wdata : WData) (index : ℕ) (g : Globals W)
      → IsValid g.queue
      → wdata.len - index < rounds
      → command_loop os rounds wdata index g ≢ hangs
  unfolding command_loop
  loop-ends zero wdata index g v h = absurd (omega arith)
  loop-ends (suc rounds) wdata index g v h =
      let star = find_star (wdata.len - index) wdata index in
      let behind = le-find_star (wdata.len - index) wdata index in
      elim (Bool-cases (ltb star wdata.len)) [
        | inl inside ↦
            let inside_lt : star < wdata.len = ground (arith, inside) in
            let goes =
              go_on-ends star (at_star os wdata star g) (command_loop os rounds wdata)
                ((at_star-Advances wdata star).advances g v)
                (λ i g' v' further.
                  loop-ends rounds wdata i g' v' (omega (arith, h, behind, inside_lt, further))) in
            rw (inside, command_loop) goes
        | inr outside ↦ rw (outside, command_loop) (ground arith)
      ]

  -- On whatever bytes came, processInputBuffer ends, if the queue is valid and each write takes
  -- what it is given: it returns, ends the process, or does what C leaves undefined.
  pub process_input_buffer-ends :
      (wdata : WData) (g : Globals W) → IsValid g.queue → process_input_buffer os wdata g ≢ hangs
  unfolding process_input_buffer
  process_input_buffer-ends wdata g v =
      let all = merged g.buf_master_cmd wdata in
      let g' = record g { buf_master_cmd = record (g.buf_master_cmd) { len = 0 } } in
      loop-ends (suc all.len) all 0 g' v (omega arith)
