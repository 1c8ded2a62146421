-- ===== src/Invariant.antt =====
-- What every function of proxy/ keeps: any predicate on the parts of the globals below that allows
-- what the functions do to them.
pub mod Calls
pub mod Parsing
pub mod Commands
pub mod Loops
pub mod Handlers
pub mod Events
pub mod Success
pub mod Relaying
pub mod Reach
pub mod Sound
pub mod Stored
pub mod Phases
pub mod Turns
use lrued_redis_storage_iceb.Prelude.{
  ◌≡◌, ◌<◌, refl, Bool, true, false, Option, none, some, if◌then◌else◌,
}
use lrued_redis_storage_iceb.CirQueue.{CirQueue}
use lrued_redis_storage_iceb.CirQueue.Valid.{IsValid}
use lrued_redis_storage_iceb.State.{
  Settings, Hosts, Phase, start, WData, max_read, Text, Os, Run, ok, exits, undefined, hangs,
  Globals, M, ◌>>=◌, ◌>>◌, pure, fails, gets, modify, call, tell, on_queue, change_queue, when,
}

-- The globals without the descriptors, the counters and the world.
pub record Core : Type 0 where
  pub conf : Settings
  pub hosts : Hosts
  pub phase : Phase
  pub buf_master_cmd : WData
  pub buf_slave_answer : WData
  pub queue : CirQueue Text

abbrev pub core : {W : Type 0} → Globals W → Core
core g = record {
  conf = g.conf;
  hosts = g.hosts;
  phase = g.phase;
  buf_master_cmd = g.buf_master_cmd;
  buf_slave_answer = g.buf_slave_answer;
  queue = g.queue;
}

-- The predicate has a valid queue, and allows another valid queue, less than MAX_READ bytes in each
-- buffer, and the return to START_STATE.
pub record IsInvariant (P : Core → Type 0) : Type 0 where
  pub valid : (c : Core) → P c → IsValid c.queue
  pub with_queue : (c : Core) (q : CirQueue Text) → P c → IsValid q → P (record c { queue = q })
  pub with_commands :
      (c : Core) (b : WData) → P c → b.len < max_read → P (record c { buf_master_cmd = b })
  pub with_answers :
      (c : Core) (b : WData) → P c → b.len < max_read → P (record c { buf_slave_answer = b })
  pub at_start : (c : Core) → P c → P (record c { phase = start })

-- A call that returns leaves it.
unfoldable pub Settled : {W A : Type 0} → (Core → Type 0) → Run (A × Globals W) → Type 0
Settled P (ok (a, g)) = P (core g)
Settled P exits = Unit {0}
Settled P undefined = Unit {0}
Settled P hangs = Unit {0}

pub record Keeps {W A : Type 0} (P : Core → Type 0) (m : M W A) : Type 0 where
  pub keeps : (g : Globals W) → P (core g) → Settled P (m g)

module _ {W A B : Type 0} {P : Core → Type 0} where
  pub bind-Settled :
      (r : Run (A × Globals W)) (g : Globals W) (f : A → M W B)
      → Settled P r
      → ((a : A) → Keeps P (f a))
      → Settled P ((fails r >>= f) g)
  unfolding Settled
  bind-Settled (ok (a, g')) g f s k = (k a).keeps g' s
  bind-Settled exits g f s k = tt
  bind-Settled undefined g f s k = tt
  bind-Settled hangs g f s k = tt

  pub bind-Keeps :
      (m : M W A) (f : A → M W B) → Keeps P m → ((a : A) → Keeps P (f a)) → Keeps P (m >>= f)
  bind-Keeps m f k l = record { keeps = λ g v. bind-Settled (m g) g f (k.keeps g v) l }

module _ {W : Type 0} {P : Core → Type 0} where
  pub then-Keeps :
      {B : Type 0} (m : M W (Unit {0})) (k : M W B) → Keeps P m → Keeps P k → Keeps P (m >> k)
  then-Keeps m k km kk = bind-Keeps m (λ a. k) km (λ a. kk)

  pub pure-Keeps : {A : Type 0} (a : A) → Keeps P (pure {W = W} a)
  unfolding Settled
  pure-Keeps a = record { keeps = λ g v. v }

  pub gets-Keeps : {A : Type 0} (f : Globals W → A) → Keeps P (gets f)
  unfolding Settled
  gets-Keeps f = record { keeps = λ g v. v }

  pub call-Keeps : {A : Type 0} (f : W → A × W) → Keeps P (call f)
  unfolding Settled
  call-Keeps f = record { keeps = λ g v. v }

  pub tell-Keeps : (f : W → W) → Keeps P (tell f)
  unfolding Settled
  tell-Keeps f = record { keeps = λ g v. v }

  -- A store to anything but what the predicate is about.
  pub modify-Keeps :
      (f : Globals W → Globals W) → ((g : Globals W) → core (f g) ≡ core g) → Keeps P (modify f)
  unfolding Settled
  modify-Keeps f same = record { keeps = λ g v. rw (same g) v }

  pub change-Keeps :
      (f : Globals W → Globals W)
      → ((g : Globals W) → P (core g) → P (core (f g)))
      → Keeps P (modify f)
  unfolding Settled
  change-Keeps f kept = record { keeps = kept }

  pub exits-Keeps : (A : Type 0) → Keeps {W = W} {A = A} P (fails exits)
  unfolding Settled
  exits-Keeps A = record { keeps = λ g v. tt }

  pub undefined-Keeps : (A : Type 0) → Keeps {W = W} {A = A} P (fails undefined)
  unfolding Settled
  undefined-Keeps A = record { keeps = λ g v. tt }

  pub hangs-Keeps : (A : Type 0) → Keeps {W = W} {A = A} P (fails hangs)
  unfolding Settled
  hangs-Keeps A = record { keeps = λ g v. tt }

  pub if-Keeps :
      {A : Type 0} (c : Bool) (m k : M W A) → Keeps P m → Keeps P k → Keeps P (if c then m else k)
  if-Keeps true m k km kk = km
  if-Keeps false m k km kk = kk

  pub option-Keeps :
      {A B : Type 0} (o : Option B) (m : M W A) (f : B → M W A)
      → Keeps P m
      → ((b : B) → Keeps P (f b))
      → Keeps P (elim o [ none ↦ m | some b ↦ f b ])
  option-Keeps none m f km kf = km
  option-Keeps (some b) m f km kf = kf b

  pub when-Keeps : (c : Bool) (m : M W (Unit {0})) → Keeps P m → Keeps P (when c m)
  unfolding Settled
  when-Keeps true m km = record { keeps = λ g v. km.keeps g v }
  when-Keeps false m km = record { keeps = λ g v. v }

module _ {W : Type 0} {P : Core → Type 0} (inv : IsInvariant P) where
  pub change_queue-Keeps :
      (f : CirQueue Text → Option (CirQueue Text))
      → ((q : CirQueue Text) → IsValid q → (q' : CirQueue Text) × (f q ≡ some q') × IsValid q')
      → Keeps P (change_queue {W = W} f)
  unfolding Settled
  change_queue-Keeps f kept = record {
    keeps = λ g v.
        let (q', runs, valid) = kept g.queue (inv.valid (core g) v) in
        rw (runs, Settled) (inv.with_queue (core g) q' v valid);
  }

  pub on_queue-Keeps :
      {A : Type 0} (f : CirQueue Text → Option (A × CirQueue Text))
      → ((q : CirQueue Text)
          → IsValid q
          → (a : A) × (q' : CirQueue Text) × (f q ≡ some (a, q')) × IsValid q')
      → Keeps P (on_queue {W = W} f)
  unfolding Settled
  on_queue-Keeps f kept = record {
    keeps = λ g v.
        let (a, q', runs, valid) = kept g.queue (inv.valid (core g) v) in
        rw (runs, Settled) (inv.with_queue (core g) q' v valid);
  }

module _ {W : Type 0} where
  -- A loop that ends where its test fails.
  pub round-Settled :
      (P : Core → Type 0) (c : Bool) (g : Globals W) (r : Run (Unit {0} × Globals W))
      → P (core g)
      → Settled P r
      → Settled P (elim c [ false ↦ ok (tt, g) | true ↦ r ])
  unfolding Settled
  round-Settled P true g r v s = s
  round-Settled P false g r v s = v

  pub if-Settled :
      (P : Core → Type 0) {A : Type 0} (c : Bool) (r s : Run (A × Globals W))
      → Settled P r
      → Settled P s
      → Settled P (if c then r else s)
  if-Settled P true r s kr ks = kr
  if-Settled P false r s kr ks = ks
