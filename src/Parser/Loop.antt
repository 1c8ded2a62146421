-- ===== src/Parser/Loop.antt =====
-- `parseReadData` of proxy/parser.c ends on whatever bytes came: each answer ends behind its start
-- or takes a key from the queue, in which 4095 wait at most.
use native.Mathlib.Nat.{mul-le-mul_right}
use lrued_redis_storage_iceb.Prelude.{
  ℕ, zero, suc, ◌+◌, ◌-◌, ◌*◌, ◌≤◌, ◌<◌, ◌≡◌, ◌≢◌, refl, Bool, true, false, Bool-cases, ◌⊎◌, inl,
  inr, Option, none, some, ltb, leb, if◌then◌else◌, arith,
}
use lrued_redis_storage_iceb.Prelude.Int.{ℤ, pos, negsuc, pos_part}
use lrued_redis_storage_iceb.CirQueue.{que_size}
use lrued_redis_storage_iceb.CirQueue.Valid.{IsValid}
use lrued_redis_storage_iceb.State.{
  WData, Os, Globals, M, Run, ok, exits, undefined, hangs, ◌>>◌, pure, fails,
}
use lrued_redis_storage_iceb.Store.{object}
use lrued_redis_storage_iceb.Parser.{
  incomplete, pop_handle, finish_array, parse_array, invalid, bulk_body, parse_bulk_string,
  drop_key, parse_simple, find_newline, parse_one, go_on, parse_loop, parse_read_data, number_from,
  merged,
}
use lrued_redis_storage_iceb.Parser.Ends.{
  EndsIn, bind-EndsIn, Fewer, NoMore, pop_handle-EndsIn, drop_key-EndsIn, parse_items-ends,
}

fewer_keys : {a b x : ℕ} (m y : ℕ) → a < b → x < m → a * m + x < b * m + y
fewer_keys m y h h' = omega (arith, mul-le-mul_right m h, h')

module _ {W J : Type 0} (os : Os W J) where
  le-find_newline :
      (rounds : ℕ) (wdata : WData) (i k : ℕ) → find_newline os rounds wdata i ≡ some k → i ≤ k
  unfolding find_newline
  le-find_newline zero wdata i k e = absurd (ground (arith, e))
  le-find_newline (suc rounds) wdata i k e =
      ground (arith, e, le-find_newline rounds wdata (i + 1) k)

  -- An answer ends behind its start, or takes a key from the queue.
  abbrev Goes : ℕ → Globals W → Option ℕ → Globals W → Type 0
  Goes index g next g' =
      IsValid g'.queue
      × ((i : ℕ)
          → next ≡ some i
          → (g'.queue.count < g.queue.count) ⊎ ((g'.queue.count ≤ g.queue.count) × (index < i)))

  module _ (index : ℕ) (g : Globals W) (v : IsValid g.queue) where
    record Advances (m : M W (Option ℕ)) : Type 0 where
      pub advances : EndsIn (Goes index g) (m g)

    incomplete-Advances : (wdata : WData) (start : ℕ) → Advances (incomplete os wdata start)
    unfolding incomplete EndsIn
    incomplete-Advances wdata start = record { advances = (v, λ i e. absurd (ground (arith, e))) }

    then-Advances :
        (m : M W (Unit {0})) (next : Option ℕ)
        → EndsIn (Fewer os g) (m g)
        → Advances (m >> pure next)
    unfolding EndsIn
    then-Advances m next e = record {
      advances =
          bind-EndsIn (Fewer os g) (Goes index g) (m g) g _ e
            (λ a g' fewer. (fewer.0, λ i same. inl fewer.1));
    }

    if-Advances :
        (c : Bool) (m k : M W (Option ℕ)) → Advances m → Advances k → Advances (if c then m else k)
    if-Advances true m k em ek = em
    if-Advances false m k em ek = ek

    fails-Advances : Advances (fails undefined)
    unfolding EndsIn
    fails-Advances = record { advances = tt }

    pure-Advances : (next : Option ℕ) → ((i : ℕ) → next ≡ some i → index < i) → Advances (pure next)
    unfolding EndsIn
    pure-Advances next h = record { advances = (v, λ i e. inr (omega arith, h i e)) }

    option-Advances :
        {A : Type 0} (o : Option A) (m : M W (Option ℕ)) (f : A → M W (Option ℕ))
        → Advances m
        → ((a : A) → o ≡ some a → Advances (f a))
        → Advances (elim o [ none ↦ m | some a ↦ f a ])
    option-Advances none m f em ef = em
    option-Advances (some a) m f em ef = ef a refl

    finish-Advances :
        (wdata : WData) (start : ℕ) (r : Run (Option (Option ℕ × J)))
        → r ≢ hangs
        → Advances (finish_array os wdata start r)
    unfolding finish_array EndsIn
    finish-Advances wdata start (ok none) h = incomplete-Advances wdata start
    finish-Advances wdata start (ok (some (next, j))) h =
        then-Advances (pop_handle os (object j)) next (pop_handle-EndsIn os (object j) g v)
    finish-Advances wdata start exits h = record { advances = tt }
    finish-Advances wdata start undefined h = record { advances = tt }
    finish-Advances wdata start hangs h = absurd (h refl)

    array-Advances : (wdata : WData) (start : ℕ) → Advances (parse_array os wdata start)
    unfolding parse_array EndsIn
    array-Advances wdata start = if-Advances _ _ _ (incomplete-Advances wdata start) (
        option-Advances (number_from wdata (start + 1)) _ _ fails-Advances (λ n e.
          if-Advances _ _ _ (incomplete-Advances wdata start) (
            finish-Advances wdata start _
              (parse_items-ends os (pos_part n.0) wdata invalid os.json_object (some (n.1 + 2))))))

    body-Advances :
        (wdata : WData) (start behind : ℕ) (len : ℤ)
        → Advances (bulk_body os wdata start behind len)
    unfolding bulk_body EndsIn
    body-Advances wdata start behind (negsuc n) = record { advances = tt }
    body-Advances wdata start behind (pos n) = if-Advances _ _ _ fails-Advances (
        if-Advances _ _ _ (incomplete-Advances wdata start)
          (then-Advances (pop_handle os _) (some (behind + n + 4)) (pop_handle-EndsIn os _ g v)))

    bulk-Advances : (wdata : WData) (start : ℕ) → Advances (parse_bulk_string os wdata start)
    unfolding parse_bulk_string EndsIn
    bulk-Advances wdata start =
        option-Advances (number_from wdata (start + 1)) _ _ fails-Advances (λ n e.
          if-Advances (leb wdata.len n.1) _ _ (incomplete-Advances wdata start)
            (body-Advances wdata start n.1 n.0))

    passes : (k i : ℕ) → index < k + 1 → some (k + 1) ≡ some i → index < i
    passes k i h same = let e : k + 1 ≡ i = cc same in omega (arith, h, e)

    drop-Advances : (k : ℕ) → index < k + 1 → Advances (drop_key os >> pure (some (k + 1)))
    unfolding EndsIn
    drop-Advances k h = record {
      advances =
          bind-EndsIn (NoMore os g) (Goes index g) (drop_key os g) g _ (drop_key-EndsIn os g v)
            (λ a g' kept. (kept.0, λ i same. inr (kept.1, passes k i h same)));
    }

    simple-Advances : (wdata : WData) → Advances (parse_simple os wdata index)
    unfolding parse_simple EndsIn
    simple-Advances wdata =
        option-Advances (find_newline os (wdata.len - (index + 1)) wdata (index + 1)) _ _
          (incomplete-Advances wdata index)
          (λ k e.
            let behind : index < k + 1 = omega (arith, le-find_newline _ wdata (index + 1) k e) in
            if-Advances _ _ _ (drop-Advances k behind) (
              if-Advances _ _ _ (drop-Advances k behind)
                (pure-Advances (some (k + 1)) (λ i. passes k i behind))))

    one-Advances : (wdata : WData) → Advances (parse_one os wdata index)
    unfolding parse_one EndsIn
    one-Advances wdata = if-Advances _ _ _ (array-Advances wdata index) (
        if-Advances _ _ _ (bulk-Advances wdata index) (
          if-Advances _ _ _ (simple-Advances wdata)
            (pure-Advances none (λ i e. absurd (ground (arith, e))))))

  go_on-ends :
      (len index : ℕ) (g : Globals W) (r : Run (Option ℕ × Globals W)) (rest : ℕ → M W (Unit {0}))
      → index < len
      → EndsIn (Goes index g) r
      → ((i : ℕ) (g' : Globals W)
          → IsValid g'.queue
          → g'.queue.count * (len + 1) + (len - i) < g.queue.count * (len + 1) + (len - index)
          → rest i g' ≢ hangs)
      → go_on os r rest ≢ hangs
  unfolding go_on EndsIn
  go_on-ends len index g (ok (none, g')) rest h e k = ground arith
  go_on-ends len index g (ok (some i, g')) rest h e k = k i g' e.0 (elim (e.1 i refl) [
    | inl fewer ↦ fewer_keys (len + 1) _ fewer (omega arith)
    | inr (kept, further) ↦ omega (arith, h, further, mul-le-mul_right (len + 1) kept)
  ])
  go_on-ends len index g exits rest h e k = ground arith
  go_on-ends len index g undefined rest h e k = ground arith
  go_on-ends len index g hangs rest h e k = absurd e

  loop-ends :
      (rounds : ℕ) (wdata : WData) (index : ℕ) (g : Globals W)
      → IsValid g.queue
      → g.queue.count * (wdata.len + 1) + (wdata.len - index) < rounds
      → parse_loop os rounds wdata index g ≢ hangs
  unfolding parse_loop
  loop-ends zero wdata index g v h = absurd (omega arith)
  loop-ends (suc rounds) wdata index g v h = elim (Bool-cases (ltb index wdata.len)) [
    | inl inside ↦
        let inside_lt : index < wdata.len = ground (arith, inside) in
        let goes =
          go_on-ends wdata.len index g (parse_one os wdata index g) (parse_loop os rounds wdata)
            inside_lt (one-Advances index g v wdata).advances
            (λ i g' v' less. loop-ends rounds wdata i g' v' (omega (arith, less, h))) in
        rw (inside, parse_loop) goes
    | inr outside ↦ rw (outside, parse_loop) (ground arith)
  ]

  -- On whatever bytes came, parseReadData ends, if the queue is valid: it returns, ends the process,
  -- or does what C leaves undefined.
  pub parse_read_data-ends :
      (wdata : WData) (g : Globals W) → IsValid g.queue → parse_read_data os wdata g ≢ hangs
  unfolding parse_read_data
  parse_read_data-ends wdata g v =
      let all = merged g.buf_slave_answer wdata in
      let g' = record g { buf_slave_answer = record g.buf_slave_answer { len = 0 } } in
      loop-ends (suc all.len * (que_size + 1)) all 0 g' v
        (omega (arith, v.count_in, mul-le-mul_right (all.len + 1) v.count_in))
