-- ===== src/Parser/Blind.antt =====
-- What `popHandle` of proxy/parser.c and `saveValue` of proxy/store.c do has nothing to do with the
-- bytes that are kept, nor has `saveValue` with the queue.
use lrued_redis_storage_iceb.Prelude.{
  ℕ, true, false, ◌≡◌, refl, none, some, Option, Bool, if◌then◌else◌, c_str, List, [], ◌∷◌, arith,
  ap, ◌∙◌, sym,
}
use lrued_redis_storage_iceb.HashTable.{ht_get}
use lrued_redis_storage_iceb.State.{
  Text, WData, Os, Run, ok, exits, undefined, hangs, Globals, M, ◌>>=◌, pure, call, gets, fails,
  on_queue,
}
use lrued_redis_storage_iceb.CirQueue.{pop_cir_queue}
use lrued_redis_storage_iceb.Store.{
  make_url, Payload, object, null_object, characters, send_to_host, lookup_host, send_all,
  save_json, save_value,
}
use lrued_redis_storage_iceb.Parser.{pop_handle}
use lrued_redis_storage_iceb.Parser.Reply.{set_fields}
use lrued_redis_storage_iceb.Parser.Answers.{Answer, handle_all}

-- The globals with another `buf_slave_answer`.
abbrev pub with_answer : {W : Type 0} → WData → Globals W → Globals W
with_answer b g = record g { buf_slave_answer = b }

-- A change of the globals that a call left.
unfoldable pub map_run :
    {W A : Type 0} → (Globals W → Globals W) → Run (A × Globals W) → Run (A × Globals W)
map_run f (ok (a, g)) = ok (a, f g)
map_run f exits = exits
map_run f undefined = undefined
map_run f hangs = hangs

-- A change of the globals that neither touches what `saveValue` reads nor stands in its way.
pub record IsApart {W : Type 0} (put : Globals W → Globals W) : Type 0 where
  pub hosts : (g : Globals W) → (put g).hosts ≡ g.hosts
  pub world : (g : Globals W) → (put g).world ≡ g.world
  pub store : (g : Globals W) (w : W) → put (record g { world = w }) ≡ record (put g) { world = w }

-- A call that does the same after the change, and the change after it.
pub record IsBlind {W A : Type 0} (put : Globals W → Globals W) (m : M W A) : Type 0 where
  pub blind : (g : Globals W) → m (put g) ≡ map_run put (m g)

module _ {W : Type 0} (put : Globals W → Globals W) where
  module _ {A B : Type 0} where
    bound :
        (r : Run (A × Globals W)) (g g' : Globals W) (f : A → M W B)
        → ((a : A) → IsBlind put (f a))
        → (fails (map_run put r) >>= f) g ≡ map_run put ((fails r >>= f) g')
    unfolding map_run
    bound (ok (a, g1)) g g' f k = (k a).blind g1
    bound exits g g' f k = refl
    bound undefined g g' f k = refl
    bound hangs g g' f k = refl

    pub bind-IsBlind :
        (m : M W A) (f : A → M W B)
        → IsBlind put m
        → ((a : A) → IsBlind put (f a))
        → IsBlind put (m >>= f)
    bind-IsBlind m f km kf = record {
      blind = λ g. ap (λ r. (fails r >>= f) g) (km.blind g) ∙ bound (m g) g g f kf;
    }

    pub option-IsBlind :
        (o : Option B) (m : M W A) (f : B → M W A)
        → IsBlind put m
        → ((b : B) → IsBlind put (f b))
        → IsBlind put (elim o [ none ↦ m | some b ↦ f b ])
    option-IsBlind none m f km kf = km
    option-IsBlind (some b) m f km kf = kf b

  module _ {A : Type 0} where
    pub pure-IsBlind : (a : A) → IsBlind put (pure a)
    unfolding map_run
    pure-IsBlind a = record { blind = λ g. refl }

    pub exits-IsBlind : IsBlind put (fails {W = W} {A = A} exits)
    unfolding map_run
    exits-IsBlind = record { blind = λ g. refl }

    pub undefined-IsBlind : IsBlind put (fails {W = W} {A = A} undefined)
    unfolding map_run
    undefined-IsBlind = record { blind = λ g. refl }

    pub if-IsBlind :
        (c : Bool) (m k : M W A) → IsBlind put m → IsBlind put k → IsBlind put (if c then m else k)
    if-IsBlind true m k km kk = km
    if-IsBlind false m k km kk = kk

    pub call-IsBlind : IsApart put → (f : W → A × W) → IsBlind put (call f)
    unfolding map_run
    call-IsBlind apart f = record {
      blind = λ g.
          rw (apart.world g) (ap (λ h. ok ((f g.world).0, h)) (sym (apart.store g (f g.world).1)));
    }

  module _ {J : Type 0} (os : Os W J) (apart : IsApart put) where
    send_to_host-IsBlind : (host key value : Text) → IsBlind put (send_to_host os host key value)
    unfolding send_to_host
    send_to_host-IsBlind host key value =
        bind-IsBlind _ _ (call-IsBlind apart os.curl_init) (λ curl.
          if-IsBlind curl _ _
            (bind-IsBlind _ _
              (call-IsBlind apart (os.curl_post (make_url host (os.curl_escape (c_str key))) value))
              (λ _. pure-IsBlind tt))
            (pure-IsBlind tt))

    lookup_host-IsBlind : (key : Text) → IsBlind put (lookup_host os key)
    unfolding map_run
    lookup_host-IsBlind key = record { blind = λ g. rw (apart.hosts g) (ground arith) }

    backup-IsBlind :
        (u : ℕ) (host : Text) → IsBlind put (gets (λ g. ht_get u g.hosts.hashtable host))
    unfolding map_run
    backup-IsBlind u host = record { blind = λ g. rw (apart.hosts g) refl }

    send_all-IsBlind :
        (host : Option Text) (key value : Text) → IsBlind put (send_all os host key value)
    unfolding send_all
    send_all-IsBlind none key value = pure-IsBlind tt
    send_all-IsBlind (some host) key value =
        bind-IsBlind _ _ (send_to_host-IsBlind host key value) (λ _.
          bind-IsBlind _ _ (call-IsBlind apart os.uninitialised) (λ u.
            bind-IsBlind _ _ (backup-IsBlind u host) (λ backup.
              option-IsBlind backup _ _ (pure-IsBlind tt) (λ b. send_to_host-IsBlind b key value))))

    save_json-IsBlind : (value : Option Text) (key : Text) → IsBlind put (save_json os value key)
    unfolding save_json
    save_json-IsBlind none key = pure-IsBlind false
    save_json-IsBlind (some value) key =
        bind-IsBlind _ _ (lookup_host-IsBlind key)
          (λ host. bind-IsBlind _ _ (send_all-IsBlind host key value) (λ _. pure-IsBlind true))

    pub save_value-IsBlind :
        (payload : Payload J) (key : Text) → IsBlind put (save_value os payload key)
    unfolding save_value
    save_value-IsBlind (object j) key = save_json-IsBlind (os.json_dumps j) key
    save_value-IsBlind null_object key = exits-IsBlind
    save_value-IsBlind (characters s) key = undefined-IsBlind

module _ {W J : Type 0} (os : Os W J) (b : WData) where
  with_answer-IsApart : IsApart {W = W} (with_answer b)
  with_answer-IsApart = record { hosts = λ g. refl; world = λ g. refl; store = λ g w. refl }

  pop-IsBlind : IsBlind (with_answer b) (on_queue {W = W} pop_cir_queue)
  unfolding map_run
  pop-IsBlind = record { blind = λ g. ground arith }

  pub pop_handle-IsBlind : (payload : Payload J) → IsBlind (with_answer b) (pop_handle os payload)
  unfolding pop_handle
  pop_handle-IsBlind payload = bind-IsBlind (with_answer b) _ _ pop-IsBlind (λ e.
      option-IsBlind (with_answer b) e _ _ (exits-IsBlind (with_answer b)) (λ key.
        bind-IsBlind (with_answer b) _ _
          (save_value-IsBlind (with_answer b) os with_answer-IsApart payload key)
          (λ _. pure-IsBlind (with_answer b) tt)))

  pub handle_all-IsBlind : (answers : List Answer) → IsBlind (with_answer b) (handle_all os answers)
  unfolding handle_all
  handle_all-IsBlind [] = pure-IsBlind (with_answer b) tt
  handle_all-IsBlind (a ∷ as') =
      bind-IsBlind (with_answer b) _ _
        (pop_handle-IsBlind (object (set_fields os os.json_object a.fields)))
        (λ _. handle_all-IsBlind as')
