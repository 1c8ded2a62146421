-- ===== src/Invariant/Phases.antt =====
-- The states of a synchronisation, `state` of proxy/read_handler.c, as a machine: what each turn of the
-- event loop can do to them.
use lrued_redis_storage_iceb.Prelude.{
  ℕ, ◌≡◌, refl, sym, ap, subst, ◌⊎◌, inl, inr, Bool, true, false,
}
use lrued_redis_storage_iceb.CirQueue.Valid.{IsValid}
use lrued_redis_storage_iceb.State.{
  Fd, Text, Phase, start, sync_start, sync, running, Os, ok, Globals, M, ◌>>=◌, modify, when,
}
use lrued_redis_storage_iceb.Io.{ReadData, failed, nothing, bytes, read_data}
use lrued_redis_storage_iceb.Invariant.{Core, core, IsInvariant, Keeps}
use lrued_redis_storage_iceb.Invariant.Calls.{read_data-Keeps}
use lrued_redis_storage_iceb.Invariant.Success.{
  weaken-After, both-After, After, bind-After, settled-After, Still, was_read, read_data-Still,
}
use lrued_redis_storage_iceb.Invariant.Reach.{Turn, master_ready, slave_ready}

-- One turn of the event loop.
pub data Step : Turn → Phase → Phase → Type 0 where
  -- Nothing happens, or the connections break.
  stays : (t : Turn) (p : Phase) → Step t p p
  breaks : (t : Turn) (p : Phase) → Step t p start
  -- The slave asks with SYNC, at any time; or it asked with PSYNC, and the master answers.
  asks : (fd : Fd) (p : Phase) → Step (slave_ready fd) p sync_start
  answers : (fd : Fd) → Step (master_ready fd) start sync_start
  -- The master announces the size of the payload; all of the payload was passed on.
  announces : (fd : Fd) → Step (master_ready fd) sync_start sync
  relays : (fd : Fd) → Step (master_ready fd) sync running

-- What a call leaves that does not store a state itself.
abbrev pub OrStart : Phase → Core → Type 0
OrStart p c = IsValid c.queue × ((c.phase ≡ p) ⊎ (c.phase ≡ start))

pub OrStart-IsInvariant : (p : Phase) → IsInvariant (OrStart p)
OrStart-IsInvariant p = record {
  valid = λ c h. h.0;
  with_queue = λ c q h v. (v, h.1);
  with_commands = λ c b h small. h;
  with_answers = λ c b h small. h;
  at_start = λ c h. (h.0, inr refl);
}

-- A state that the turn can lead to.
abbrev pub Steps : Turn → Phase → {A : Type 0} → A → Core → Type 0
Steps t p a c = Step t p c.phase

pub or_start-Step : (t : Turn) (p q : Phase) → (q ≡ p) ⊎ (q ≡ start) → Step t p q
or_start-Step t p q (inl e) = subst (Step t p) (sym e) (stays t p)
or_start-Step t p q (inr e) = subst (Step t p) (sym e) (breaks t p)

-- The same from a state that the turn has stored.
stored-Step : (t : Turn) (p s q : Phase) → Step t p s → (q ≡ s) ⊎ (q ≡ start) → Step t p q
stored-Step t p s q h (inl e) = subst (Step t p) (sym e) h
stored-Step t p s q h (inr e) = subst (Step t p) (sym e) (breaks t p)

module _ {W J : Type 0} (os : Os W J) where
  -- A call that stores no state, from the state `s` that the turn has come to.
  pub kept-After :
      {A : Type 0} (t : Turn) (p s : Phase) (m : M W A) (g : Globals W)
      → Step t p s
      → IsValid g.queue
      → g.phase ≡ s
      → Keeps (OrStart s) m
      → After (Steps t p) (m g)
  kept-After t p s m g h v e k =
      weaken-After (λ a c. OrStart s c) (Steps t p) (m g)
        (settled-After (OrStart s) (m g) (k.keeps g (v, inl e)))
        (λ a c o. stored-Step t p s c.phase h o.1)

  -- `state = …;` under a test, and calls behind it that store no state.
  pub when-After :
      {A : Type 0} (t : Turn) (p q s : Phase) (c : Bool) (m : M W A) (g : Globals W)
      → Step t p q
      → Step t p s
      → IsValid g.queue
      → g.phase ≡ q
      → ((s' : Phase) → Keeps (OrStart s') m)
      → After (Steps t p) ((when c (modify (λ g. record g { phase = s })) >>= λ u. m) g)
  when-After t p q s true m g h h' v e k =
      kept-After t p s m (record g { phase = s }) h' v refl (k s)
  when-After t p q s false m g h h' v e k = kept-After t p q m g h v e (k q)

  -- What a read leaves.
  abbrev pub Read : Globals W → ReadData → Core → Type 0
  Read g got c = Still was_read (core g) got c × OrStart g.phase c

  read_data-Read :
      (fd : Fd) (size : ℕ) (g : Globals W)
      → IsValid g.queue
      → After (Read g) (read_data os fd size g)
  read_data-Read fd size g v =
      let kept : Keeps (OrStart g.phase) (read_data os fd size) =
        read_data-Keeps os (OrStart-IsInvariant g.phase) fd size in
      both-After (Still was_read (core g)) (λ a c. OrStart g.phase c) (read_data os fd size g)
        (read_data-Still os fd size g)
        (settled-After (OrStart g.phase) (read_data os fd size g) (kept.keeps g (v, inl refl)))

  -- What the handlers do with what they read.
  pub got-After :
      (t : Turn) (g : Globals W) (fd : Fd) (size : ℕ) (f : ReadData → M W (Unit {0}))
      → IsValid g.queue
      → ((g' : Globals W) → f failed g' ≡ ok (tt, g'))
      → ((g' : Globals W) → f nothing g' ≡ ok (tt, g'))
      → ((text : Text) (g' : Globals W)
          → IsValid g'.queue
          → g'.phase ≡ g.phase
          → After (Steps t g.phase) (f (bytes text) g'))
      → After (Steps t g.phase) ((read_data os fd size >>= f) g)
  unfolding After
  got-After t g fd size f v on_failed on_nothing k =
      bind-After (Read g) (Steps t g.phase) (read_data os fd size g) g f
        (read_data-Read fd size g v) by_got
    where
      by_got :
          (got : ReadData) (g' : Globals W)
          → Read g got (core g')
          → After (Steps t g.phase) (f got g')
      by_got failed g' h = rw (on_failed g', After) (or_start-Step t g.phase g'.phase h.1.1)
      by_got nothing g' h = rw (on_nothing g', After) (or_start-Step t g.phase g'.phase h.1.1)
      by_got (bytes text) g' h = k text g' h.1.0 (ap (λ (c : Core). c.phase) (h.0 refl))
