-- ===== src/Invariant/Sound.antt =====
-- What stays of the start in every state in which the event loop of proxy/main.c waits: the settings,
-- the file servers, and room for a whole read behind what is kept.
use lrued_redis_storage_iceb.Prelude.{
  ℕ, zero, suc, ◌+◌, ◌≤◌, ◌<◌, ◌≡◌, refl, ◌∙◌, ap, ap₂, inl, inr, Bool-cases, ltb, true, ◌*◌, [],
  ◌∷◌, ◌++◌, arith, length, length-append, length-take, take, strncpy,
}
use lrued_redis_storage_iceb.Parser.Number.{NoNul}
use lrued_redis_storage_iceb.CirQueue.{CirQueue}
use lrued_redis_storage_iceb.CirQueue.Valid.{IsValid}
use lrued_redis_storage_iceb.State.{
  Text, Phase, start, WData, Os, Globals, Settings, Hosts, max_read,
}
use lrued_redis_storage_iceb.Parser.{merged}
use lrued_redis_storage_iceb.Invariant.{Core, core, IsInvariant}
use lrued_redis_storage_iceb.Invariant.Reach.{Reached, Reached-invariant}
use lrued_redis_storage_iceb.Startup.{initial}

-- The settings and the file servers are those of the start, and less than MAX_READ bytes are kept of
-- commands and of answers.
pub record IsSound (conf : Settings) (hosts : Hosts) (c : Core) : Type 0 where
  pub same_conf : c.conf ≡ conf
  pub same_hosts : c.hosts ≡ hosts
  pub small_command : c.buf_master_cmd.len < max_read
  pub small_answer : c.buf_slave_answer.len < max_read
  pub queue_valid : IsValid c.queue

any_phase :
    {conf : Settings} {hosts : Hosts} (c : Core) (p : Phase)
    → IsSound conf hosts c
    → IsSound conf hosts (record c { phase = p })
any_phase c p s = record {
  same_conf = s.same_conf;
  same_hosts = s.same_hosts;
  small_command = s.small_command;
  small_answer = s.small_answer;
  queue_valid = s.queue_valid;
}

IsSound-IsInvariant : (conf : Settings) (hosts : Hosts) → IsInvariant (IsSound conf hosts)
IsSound-IsInvariant conf hosts = record {
  valid = λ c s. s.queue_valid;
  with_queue = λ c q s v. record {
    same_conf = s.same_conf;
    same_hosts = s.same_hosts;
    small_command = s.small_command;
    small_answer = s.small_answer;
    queue_valid = v;
  };
  with_commands = λ c b s small. record {
    same_conf = s.same_conf;
    same_hosts = s.same_hosts;
    small_command = small;
    small_answer = s.small_answer;
    queue_valid = s.queue_valid;
  };
  with_answers = λ c b s small. record {
    same_conf = s.same_conf;
    same_hosts = s.same_hosts;
    small_command = s.small_command;
    small_answer = small;
    queue_valid = s.queue_valid;
  };
  at_start = λ c s. any_phase c start s;
}

-- The bytes that count, which are in the array.
abbrev pub text_of : WData → Text
text_of wdata = take wdata.len wdata.bytes

-- The bytes that count are all there, without a NUL.
abbrev pub IsClean : WData → Type 0
IsClean wdata = (wdata.len ≤ length wdata.bytes) × NoNul (text_of wdata)

strncpy-take : (n : ℕ) (xs : Text) → n ≤ length xs → NoNul (take n xs) → strncpy n xs ≡ take n xs
unfolding strncpy
strncpy-take zero xs h clean = refl
strncpy-take (suc n) [] h clean = absurd (omega arith)
strncpy-take (suc n) (x ∷ xs) h clean = ground (arith, strncpy-take n xs)

take_exact : (n : ℕ) (xs : Text) → length xs ≡ n → take n xs ≡ xs
take_exact zero [] h = refl
take_exact zero (x ∷ xs) h = absurd (omega arith)
take_exact (suc n) [] h = refl
take_exact (suc n) (x ∷ xs) h = ap (λ l. x ∷ l) (take_exact n xs (omega (arith, h)))

-- The read stands whole behind what was kept.
abbrev pub Joins : WData → WData → Type 0
Joins buf wdata =
    ((merged buf wdata).len ≡ buf.len + wdata.len)
    × (text_of (merged buf wdata) ≡ text_of buf ++ text_of wdata)

merged-Joins :
    (buf wdata : WData)
    → buf.len < max_read
    → wdata.len ≤ max_read
    → IsClean buf
    → IsClean wdata
    → Joins buf wdata
unfolding merged
merged-Joins buf wdata small small' clean clean' = elim (Bool-cases (ltb 0 buf.len)) [
  | inr nothing ↦ let empty : buf.len ≡ 0 = ground (arith, nothing) in rw empty (omega arith, refl)
  | inl kept ↦
      let room : ltb (buf.len + wdata.len) (max_read * 2) ≡ true = ground (arith, small, small') in
      let copied =
        ap₂ (λ s t. s ++ t) (strncpy-take buf.len buf.bytes clean.0 clean.1)
          (strncpy-take wdata.len wdata.bytes clean'.0 clean'.1) in
      let size : length (text_of buf ++ text_of wdata) ≡ buf.len + wdata.len = omega (
        arith,
        length-append (text_of buf) (text_of wdata),
        length-take buf.len buf.bytes,
        length-take wdata.len wdata.bytes,
        clean.0,
        clean'.0,
      ) in
      rw (kept, room)
        (
          refl,
          ap (take (buf.len + wdata.len)) copied
              ∙ take_exact (buf.len + wdata.len) (text_of buf ++ text_of wdata) size,
        )
]

from_start :
    {W : Type 0} (conf : Settings) (hosts : Hosts) (w : W) (q : CirQueue Text)
    → IsValid q
    → IsSound conf hosts (record (core (initial conf hosts w)) { queue = q })
unfolding initial
from_start conf hosts w q v = record {
  same_conf = refl;
  same_hosts = refl;
  small_command = omega arith;
  small_answer = omega arith;
  queue_valid = v;
}

module _ {W J : Type 0} (os : Os W J) where
  Reached-IsSound :
      (conf : Settings) (hosts : Hosts) (w : W) {g : Globals W}
      → Reached os (initial conf hosts w) g
      → IsSound conf hosts (core g)
  Reached-IsSound conf hosts w r =
      Reached-invariant os (IsSound conf hosts) (IsSound-IsInvariant conf hosts) any_phase
        (initial conf hosts w) (from_start conf hosts w) r

  pub Reached-same_hosts :
      (conf : Settings) (hosts : Hosts) (w : W) {g : Globals W}
      → Reached os (initial conf hosts w) g
      → g.hosts ≡ hosts
  Reached-same_hosts conf hosts w r = (Reached-IsSound conf hosts w r).same_hosts

  -- In every state in which the event loop waits after `main` has come to it, the settings and the
  -- file servers are those with which it began, and whatever is read next, at most MAX_READ bytes,
  -- stands whole behind all that was kept, of the commands and of the answers, if there is no NUL in
  -- the three.
  pub Reached-merged :
      (conf : Settings) (hosts : Hosts) (w : W) {g : Globals W} (wdata : WData)
      → Reached os (initial conf hosts w) g
      → wdata.len ≤ max_read
      → IsClean g.buf_master_cmd
      → IsClean g.buf_slave_answer
      → IsClean wdata
      → (g.conf ≡ conf)
        × (g.hosts ≡ hosts)
        × Joins g.buf_master_cmd wdata
        × Joins g.buf_slave_answer wdata
  Reached-merged conf hosts w {g} wdata r small clean clean' clean'' =
      let s = Reached-IsSound conf hosts w r in
      (
        s.same_conf,
        s.same_hosts,
        merged-Joins g.buf_master_cmd wdata s.small_command small clean clean'',
        merged-Joins g.buf_slave_answer wdata s.small_answer small clean' clean'',
      )
