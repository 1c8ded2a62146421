-- ===== src/Invariant/Success.antt =====
-- Reads and writes of proxy/io.c that succeed, and the loops of proxy/read_handler.c over them, leave
-- all but the descriptors and the size of the payload as it was.
use lrued_redis_storage_iceb.Prelude.{
  arith, subst, ℕ, zero, suc, ◌+◌, ◌≡◌, refl, Bool, true, false, Option, none, some, [], ◌∷◌, ◌==◌,
  ◌||◌, drop, if◌then◌else◌,
}
use lrued_redis_storage_iceb.State.{
  Fd, Text, Os, Run, ok, exits, undefined, hangs, Globals, M, ◌>>=◌, ◌>>◌, pure, fails, eagain,
  einprogress,
}
use lrued_redis_storage_iceb.Io.{
  ReadData, failed, nothing, bytes, is_fatal, close_fd, classify, read_from, read_data, write_loop,
  write_to, write_data, reconnect,
}
use lrued_redis_storage_iceb.ReadHandler.{to_slave}
use lrued_redis_storage_iceb.Invariant.{Core, core, Keeps, Settled}
use lrued_redis_storage_iceb.Invariant.Calls.{reconnect-Keeps}

-- If the call returns, `P` holds of its result and what it leaves.
unfoldable pub After : {W A : Type 0} → (A → Core → Type 0) → Run (A × Globals W) → Type 0
After P (ok (a, g)) = P a (core g)
After P exits = Unit {0}
After P undefined = Unit {0}
After P hangs = Unit {0}

module _ {W A B : Type 0} where
  pub bind-After :
      (P : A → Core → Type 0) (Q : B → Core → Type 0) (r : Run (A × Globals W)) (g : Globals W)
      (f : A → M W B)
      → After P r
      → ((a : A) (g' : Globals W) → P a (core g') → After Q (f a g'))
      → After Q ((fails r >>= f) g)
  unfolding After
  bind-After P Q (ok (a, g')) g f e k = k a g' e
  bind-After P Q exits g f e k = tt
  bind-After P Q undefined g f e k = tt
  bind-After P Q hangs g f e k = tt

module _ {W A : Type 0} where
  pub settled-After :
      (P : Core → Type 0) (r : Run (A × Globals W)) → Settled P r → After (λ a c. P c) r
  unfolding After Settled
  settled-After P (ok (a, g)) s = s
  settled-After P exits s = tt
  settled-After P undefined s = tt
  settled-After P hangs s = tt

module _ {W A : Type 0} (P Q : A → Core → Type 0) where
  pub weaken-After :
      (r : Run (A × Globals W)) → After P r → ((a : A) (c : Core) → P a c → Q a c) → After Q r
  unfolding After
  weaken-After (ok (a, g)) h k = k a (core g) h
  weaken-After exits h k = tt
  weaken-After undefined h k = tt
  weaken-After hangs h k = tt

  pub both-After :
      (r : Run (A × Globals W)) → After P r → After Q r → After (λ a c. P a c × Q a c) r
  unfolding After
  both-After (ok (a, g)) h k = (h, k)
  both-After exits h k = tt
  both-After undefined h k = tt
  both-After hangs h k = tt

-- Which results are those of a success.
abbrev pub was_read : ReadData → Bool
was_read failed = false
was_read nothing = true
was_read (bytes text) = true

abbrev pub was_sent : {A : Type 0} → Option A → Bool
was_sent none = false
was_sent (some n) = true

-- A success leaves the core as it was.
abbrev pub Still : {A : Type 0} → (A → Bool) → Core → A → Core → Type 0
Still good before a c = good a ≡ true → c ≡ before

module _ {W J : Type 0} (os : Os W J) where
  no_success :
      {A : Type 0} (good : A → Bool) (before : Core) (a : A) (m : M W (Unit {0})) (g : Globals W)
      → good a ≡ false
      → After (Still good before) ((m >> pure a) g)
  unfolding After
  no_success good before a m g bad =
      bind-After (λ u c. Unit {0}) (Still good before) (m g) g (λ u. pure a) (always (m g))
        (λ u g' t. λ e. absurd (ground (arith, bad, e)))
    where
      always : (r : Run (Unit {0} × Globals W)) → After (λ u c. Unit {0}) r
      always (ok (u, g')) = tt
      always exits = tt
      always undefined = tt
      always hangs = tt

  give_up-Still :
      (errno : ℕ) (g : Globals W)
      → After
          (Still was_read (core g))
          ((if is_fatal os errno then (close_fd os >> pure failed) else pure nothing) g)
  unfolding After
  give_up-Still errno g = by_errno (is_fatal os errno)
    where
      by_errno :
          (c : Bool)
          → After
              (Still was_read (core g))
              ((if c then (close_fd os >> pure failed) else pure nothing) g)
      by_errno true = no_success was_read (core g) failed (close_fd os) g refl
      by_errno false = λ e. refl

  classify-Still :
      (got : Option Text) (errno : ℕ) (g : Globals W)
      → After (Still was_read (core g)) (classify os (record { got = got; errno = errno }) g)
  unfolding After classify
  classify-Still none errno g = give_up-Still errno g
  classify-Still (some []) errno g = give_up-Still errno g
  classify-Still (some (b ∷ bs)) errno g = λ e. refl

  read_from-Still :
      (fd : Fd) (size : ℕ) (g : Globals W)
      → After (Still was_read (core g)) (read_from os fd size g)
  unfolding After read_from
  read_from-Still none size g = λ e. refl
  read_from-Still (some fd) size g =
      let r = os.read fd size g.world in classify-Still r.0.got r.0.errno (record g { world = r.1 })

  reconnect-Still : (g : Globals W) → After (λ u c. c ≡ core g) (reconnect os g)
  reconnect-Still g =
      let kept : Keeps (λ c. c ≡ core g) (reconnect os) = reconnect-Keeps os in
      settled-After (λ c. c ≡ core g) (reconnect os g) (kept.keeps g refl)

  -- After the connection to the master was looked after.
  reconnected-Still :
      {A : Type 0} (good : A → Bool) (m : M W A) (g : Globals W)
      → ((g' : Globals W) → After (Still good (core g')) (m g'))
      → After (Still good (core g)) ((reconnect os >> m) g)
  reconnected-Still good m g k =
      bind-After (λ u c. c ≡ core g) (Still good (core g)) (reconnect os g) g (λ u. m)
        (reconnect-Still g) (λ u g' e. subst (λ c. After (Still good c) (m g')) e (k g'))

  pub read_data-Still :
      (fd : Fd) (size : ℕ) (g : Globals W)
      → After (Still was_read (core g)) (read_data os fd size g)
  unfolding read_data
  read_data-Still fd size g =
      reconnected-Still was_read (read_from os fd size) g (read_from-Still fd size)

  write_loop-Still :
      (rounds fd all_write : ℕ) (rest : Text) (g : Globals W)
      → After (Still was_sent (core g)) (write_loop os rounds fd all_write rest g)
  unfolding After write_loop
  write_loop-Still zero fd all_write rest g = tt
  write_loop-Still (suc rounds) fd all_write [] g = λ e. refl
  write_loop-Still (suc rounds) fd all_write (b ∷ bs) g =
      let r = os.write fd (b ∷ bs) g.world in
      let g' : Globals W = record g { world = r.1 } in
      write_round r.0.sent ((r.0.errno == eagain) || (r.0.errno == einprogress)) g'
        (write_loop-Still rounds fd all_write (b ∷ bs) g')
        (λ n. write_loop-Still rounds fd (all_write + suc n) (drop (suc n) (b ∷ bs)) g')
    where
      write_round :
          (sent : Option ℕ) (c : Bool) (g' : Globals W)
          → After (Still was_sent (core g')) (write_loop os rounds fd all_write (b ∷ bs) g')
          → ((n : ℕ)
              → After
                  (Still was_sent (core g'))
                  (write_loop os rounds fd (all_write + suc n) (drop (suc n) (b ∷ bs)) g'))
          → After (Still was_sent (core g')) (elim sent [
            | some (suc n) ↦ write_loop os rounds fd (all_write + suc n) (drop (suc n) (b ∷ bs)) g'
            | _ ↦
                if c
                then write_loop os rounds fd all_write (b ∷ bs) g'
                else (close_fd os >> pure none) g'
          ])
      write_round none true g' again further = again
      write_round none false g' again further =
          no_success was_sent (core g') none (close_fd os) g' refl
      write_round (some zero) true g' again further = again
      write_round (some zero) false g' again further =
          no_success was_sent (core g') none (close_fd os) g' refl
      write_round (some (suc n)) c g' again further = further n

  write_to-Still :
      (fd : Fd) (buf : Text) (g : Globals W)
      → After (Still was_sent (core g)) (write_to os fd buf g)
  unfolding After write_to
  write_to-Still none buf g = λ e. absurd (ground (arith, e))
  write_to-Still (some fd) buf g = write_loop-Still os.rounds fd 0 buf g

  write_data-Still :
      (fd : Fd) (buf : Text) (g : Globals W)
      → After (Still was_sent (core g)) (write_data os fd buf g)
  unfolding write_data
  write_data-Still fd buf g =
      reconnected-Still was_sent (write_to os fd buf) g (write_to-Still fd buf)

  pub to_slave-Still :
      (text : Text) (g : Globals W) → After (Still (λ b. b) (core g)) (to_slave os text g)
  unfolding After to_slave
  to_slave-Still text g =
      bind-After (Still was_sent (core g)) (Still (λ b. b) (core g))
        (write_data os g.client_fd text g) g
        (λ wr. elim wr [ none ↦ pure false | some n ↦ pure true ])
        (write_data-Still g.client_fd text g) answer
    where
      answer :
          (wr : Option ℕ) (g' : Globals W)
          → Still was_sent (core g) wr (core g')
          → After
              (Still (λ b. b) (core g))
              ((elim wr as (λ r. M W Bool) [ none ↦ pure false | some n ↦ pure true ]) g')
      answer none g' e = λ t. absurd (ground (arith, t))
      answer (some n) g' e = e

  -- Steps of a loop that go on only from a success.
  pub from_same :
      {A : Type 0} (good : A → Bool) (before : Core) (g' : Globals W) (r : Run (A × Globals W))
      → core g' ≡ before
      → After (Still good (core g')) r
      → After (Still good before) r
  from_same good before g' r e h = subst (λ c. After (Still good c) r) e h
