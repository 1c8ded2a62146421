-- ===== src/Queries.antt =====
-- From a DEL of the master to the value at a file server: proxy/lrued_query.c, proxy/cir_queue.c,
-- proxy/parser.c and proxy/store.c together.
pub mod Stored
pub mod Asked
pub mod Paired
pub mod Forwarded
use lrued_redis_storage_iceb.Prelude.{List, [], ◌∷◌}
use lrued_redis_storage_iceb.CirQueue.{CirQueue}
use lrued_redis_storage_iceb.State.{Text, Os, exits, Globals, M, ◌>>=◌, ◌>>◌, pure, fails}
use lrued_redis_storage_iceb.Store.{object, save_value}
use lrued_redis_storage_iceb.Parser.Reply.{set_fields}
use lrued_redis_storage_iceb.Parser.Answers.{Answer}

-- The globals with another queue.
abbrev pub with_queue : {W : Type 0} → CirQueue Text → Globals W → Globals W
with_queue q g = record g { queue = q }

module _ {W J : Type 0} (os : Os W J) where
  -- The object of an answer is stored under a key.
  unfoldable pub store_one : Answer → Text → M W (Unit {0})
  store_one a key =
      save_value os (object (set_fields os os.json_object a.fields)) key >>= λ _. pure tt

  -- Each answer's object is stored under its key; without a key the process ends.
  unfoldable pub store_all : List Answer → List Text → M W (Unit {0})
  store_all [] keys = pure tt
  store_all (a ∷ as') [] = fails exits
  store_all (a ∷ as') (key ∷ keys) = store_one a key >> store_all as' keys
