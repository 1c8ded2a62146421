-- ===== src/LruedQuery/Ends.antt =====
-- The calls of proxy/lrued_query.c end, where each write takes what it is given.
use lrued_redis_storage_iceb.Prelude.{
  ℕ, Bool, true, false, Bool-cases, inl, inr, Option, none, some, ◌∷◌, ◌==◌, if◌then◌else◌, arith,
}
use lrued_redis_storage_iceb.CirQueue.Valid.{IsValid}
use lrued_redis_storage_iceb.CirQueue.{is_full_cir_queue, push_cir_queue}
use lrued_redis_storage_iceb.CirQueue.Refine.{is_full_lem, push_refines}
use lrued_redis_storage_iceb.Connect.{
  connect_to_master, serve_master, listen_to_port, listen_on, close_raw,
}
use lrued_redis_storage_iceb.Io.{reconnect, is_set, write_to, write_data}
use lrued_redis_storage_iceb.Parser.Ends.{EndsIn, bind-EndsIn}
use lrued_redis_storage_iceb.Queries.Asked.{IsOpen, write_loop-open}
use lrued_redis_storage_iceb.State.{
  Fd, Text, WData, Os, Globals, M, ◌>>=◌, pure, gets, call, on_queue, change_queue,
}
use lrued_redis_storage_iceb.LruedQuery.{hgetall, is_del, query_key, keep_command}

-- On a valid queue the call ends, and leaves a valid queue if it returns.
unfoldable pub HasQueue : {W A : Type 0} → A → Globals W → Type 0
HasQueue a g = IsValid g.queue

pub record Ends {W A : Type 0} (m : M W A) : Type 0 where
  pub ends : (g : Globals W) → IsValid g.queue → EndsIn HasQueue (m g)

module _ {W J : Type 0} (os : Os W J) where
  bind-Ends :
      {A B : Type 0} (m : M W A) (f : A → M W B) → Ends m → ((a : A) → Ends (f a)) → Ends (m >>= f)
  unfolding HasQueue
  bind-Ends m f em ef = record {
    ends =
        λ g v. bind-EndsIn HasQueue HasQueue (m g) g f (em.ends g v) (λ a g' v'. (ef a).ends g' v');
  }

  pure-Ends : {A : Type 0} (a : A) → Ends {W = W} (pure a)
  unfolding EndsIn HasQueue
  pure-Ends a = record { ends = λ g v. v }

  connect_to_master-Ends : Ends (connect_to_master os)
  unfolding EndsIn HasQueue connect_to_master serve_master listen_to_port listen_on close_raw
  connect_to_master-Ends = record { ends = λ g v. ground arith }

  reconnect-Ends : Ends (reconnect os)
  unfolding reconnect EndsIn HasQueue
  reconnect-Ends = record {
    ends = λ g v. elim (Bool-cases (is_set g.master_fd)) [
      | inl there ↦ rw (there, EndsIn) v
      | inr absent ↦ rw (absent) (
          (bind-Ends (connect_to_master os) (λ c. pure tt) connect_to_master-Ends
              (λ c. pure-Ends tt)).ends
            g v)
    ];
  }

  module _ (open_link : IsOpen os) where
    write_to-Ends : (fd : Fd) (c : ℕ) (text : Text) → Ends (write_to os fd (c ∷ text))
    unfolding write_to EndsIn HasQueue
    write_to-Ends none c text = pure-Ends none
    write_to-Ends (some fd) c text = record {
      ends = λ g v.
          rw (write_loop-open os open_link os.rounds fd c text g open_link.two_rounds, EndsIn) v;
    }

    write_data-Ends : (fd : Fd) (c : ℕ) (text : Text) → Ends (write_data os fd (c ∷ text))
    unfolding write_data
    write_data-Ends fd c text =
        bind-Ends (reconnect os) (λ u. write_to os fd (c ∷ text)) reconnect-Ends
          (λ u. write_to-Ends fd c text)

    is_full-Ends : Ends {W = W} {A = Bool} (on_queue is_full_cir_queue)
    unfolding EndsIn HasQueue
    is_full-Ends = record { ends = λ g v. rw (is_full_lem v, EndsIn) v }

    push-Ends : (key : Text) → Ends {W = W} (change_queue (λ q. push_cir_queue q (some key)))
    unfolding EndsIn HasQueue
    push-Ends key = record {
      ends = λ g v.
          let (q', runs, valid, holds) = push_refines (some key) v in rw (runs, EndsIn) valid;
    }

    if-Ends : {A : Type 0} (c : Bool) (m k : M W A) → Ends m → Ends k → Ends (if c then m else k)
    if-Ends true m k em ek = em
    if-Ends false m k em ek = ek

    option-Ends :
        {A B : Type 0} (o : Option A) (m : M W B) (f : A → M W B)
        → Ends m
        → ((a : A) → Ends (f a))
        → Ends (elim o [ none ↦ m | some a ↦ f a ])
    option-Ends none m f em ef = em
    option-Ends (some a) m f em ef = ef a

    gets-Ends : {A : Type 0} (f : Globals W → A) → Ends (gets f)
    unfolding EndsIn HasQueue
    gets-Ends f = record { ends = λ g v. v }

    call-Ends : {A : Type 0} (f : W → A × W) → Ends (call f)
    unfolding EndsIn HasQueue
    call-Ends f = record { ends = λ g v. v }

    pub query_key-Ends : (len : ℕ) (key : Text) → Ends (query_key os len key)
    unfolding query_key hgetall
    query_key-Ends len key = bind-Ends (on_queue is_full_cir_queue) _ is_full-Ends (λ full.
        if-Ends full _ _ (pure-Ends tt) (
          bind-Ends (gets (λ g. g.read_fd)) _ (gets-Ends (λ g. g.read_fd)) (λ fd.
            bind-Ends (write_data os fd (hgetall len key)) _ (write_data-Ends fd _ _)
              (λ wr. option-Ends wr _ _ (pure-Ends tt) (λ n. push-Ends key)))))

    pub keep_command-Ends : (wdata : WData) (start : ℕ) → Ends (keep_command os wdata start)
    unfolding keep_command EndsIn HasQueue
    keep_command-Ends wdata start = record { ends = λ g v. v }

    pub is_del-Ends : (wdata : WData) (index : ℕ) → Ends (is_del os wdata index)
    unfolding is_del
    is_del-Ends wdata index =
        if-Ends _ _ _
          (bind-Ends (call os.uninitialised) _ (call-Ends os.uninitialised)
            (λ behind. pure-Ends (behind == 0)))
          (pure-Ends false)
