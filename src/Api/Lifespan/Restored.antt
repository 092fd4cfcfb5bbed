-- ===== src/Api/Lifespan/Restored.antt =====
-- What a worker that has started holds, and what it leaves (`lifespan` of src/main.py).
use messenger_backend.Base.{ℕ, String, ◌≡◌, refl, ap, sym, Option, none, some, List, [], ◌∷◌}
use messenger_backend.Database.Connection
use messenger_backend.Database.Connection.{
  DatabaseManager, Created, Connected, connected, retry_error, raised,
}
use messenger_backend.Database.Connection.Outcomes.{Holds, connect_outcome}
use messenger_backend.Redis.Connection as Redis
use messenger_backend.Redis.Connection.{RedisManager, Client}
use messenger_backend.Api.Lifespan.{
  Application, Started, running, initial, after_redis, after_database, startup, shutdown, Listener,
  pubsub_task, stream_task, returned, cancelled_error, failed, finished, gather_raised,
  close_raised,
}

abbrev listeners : List Listener
listeners = pubsub_task ∷ stream_task ∷ []

-- What is left: no pool and no client, both listeners asked to end, and the tasks of `spawn_task`.
abbrev pub closed_with : List ℕ → Application
closed_with b = record initial { tasks = listeners; cancelled = listeners; background = b }

-- How a worker ends that holds this client, when its managers are as after the start.
pub record IsClosing (c : Client) (app : Application) (b : List ℕ) : Type 0 where
  pub holds_client : app.redis.client ≡ some c
  pub returns :
      shutdown returned none none none (record app { background = b }) ≡ (finished, closed_with b)
  pub cancels :
      shutdown cancelled_error none none none (record app { background = b })
      ≡ (finished, closed_with b)
  pub fails :
      (e : String) (aclose closed_redis : Option Redis.Exception)
      (closed : Option Connection.Exception)
      → shutdown (failed e) aclose closed_redis closed (record app { background = b })
        ≡ (gather_raised e, record app { cancelled = listeners; background = b })
  pub raises :
      (e : Connection.Exception)
      → shutdown cancelled_error none none (some e) (record app { background = b })
        ≡ (close_raised e, record (closed_with b) { db = app.db })

running_same :
    (a b : Client) (x y : Application)
    → ◌≡◌ {A = Started × Application} (running a, x) (running b, y)
    → b ≡ a
running_same a b x y h = cc

module _ (from_url : Redis.Pool) where
  abbrev fresh : Client
  fresh = record { connection_pool = from_url }

  abbrev opened : RedisManager
  opened = record { pool = some from_url; client = some fresh }

  abbrev asked : Redis.Outcome (Unit {0}) → Redis.Outcome Client × RedisManager
  asked r = (Redis.handle_redis_errors (Redis.pinged fresh r), opened)

  -- A worker that runs has a client that was pinged, and can give everything back.
  abbrev IsRestored : Redis.Outcome (Unit {0}) → Client → Application → Type 0
  IsRestored r c app = (c ≡ fresh) × (r ≡ Redis.returns tt) × ((b : List ℕ) → IsClosing c app b)

  abbrev started : ℕ → Application
  started p = record initial { db = record { pool = some p }; redis = opened; tasks = listeners }

  started-IsClosing : (p : ℕ) (b : List ℕ) → IsClosing fresh (started p) b
  unfolding shutdown Redis.disconnect Connection.disconnect
  started-IsClosing p b = record {
    holds_client = refl;
    returns = refl;
    cancels = refl;
    fails = λ e aclose closed_redis closed. refl;
    raises = λ e. refl;
  }

  redis-IsRestored :
      (r : Redis.Outcome (Unit {0})) (p : ℕ) {c : Client} {app : Application}
      → after_redis (asked r) (record initial { db = record { pool = some p } }) ≡ (running c, app)
      → IsRestored r c app
  unfolding Redis.client
  redis-IsRestored (Redis.returns tt) p {c} {app} h =
      let same : c ≡ fresh = running_same _ c _ app h in
      (same, refl, λ b. rw same (rw (sym (ap (λ q. q.1) h)) (started-IsClosing p b)))
  redis-IsRestored (Redis.raises e) p h = cc

  database-IsRestored :
      (r : Redis.Outcome (Unit {0})) (schema : Connection.Outcome (Unit {0})) (o : Connected)
      (n : ℕ) (m : DatabaseManager) {c : Client} {app : Application}
      → Holds o m
      → after_database ((o, n), m) schema (asked r) initial ≡ (running c, app)
      → IsRestored r c app
  database-IsRestored r (Connection.returns tt) (connected p) n m held h =
      redis-IsRestored r p (rw held at h)
  database-IsRestored r (Connection.raises e) (connected p) n m held h = cc
  database-IsRestored r schema retry_error n m held h = cc
  database-IsRestored r schema raised n m held h = cc

-- A worker that comes to run, whatever PostgreSQL and Redis answer on the way, gives out the client
-- that Redis has answered a ping of, and holds it. When it is shut down, both listeners are asked to
-- end, and the tasks of `spawn_task` that run by then, any, are left as they are. If the gather of
-- the listeners returns or ends by a CancelledError, and nothing raises while it closes, no pool and
-- no client is left. Any other exception of the gather leaves the lifespan, with every pool and the
-- client still there; and what the close of the pool of the database raises leaves it with that pool
-- alone.
pub shutdown_restores :
    (create_pool : ℕ → Created) (schema : Connection.Outcome (Unit {0})) (from_url : Redis.Pool)
    (ping : Client → Redis.Outcome (Unit {0})) {c : Client} {app : Application}
    → startup create_pool schema from_url ping ≡ (running c, app)
    → (ping c ≡ Redis.returns tt) × ((b : List ℕ) → IsClosing c app b)
unfolding startup Redis.connect
shutdown_restores create_pool schema from_url ping {c} {app} h =
    let (_, _, held) = connect_outcome create_pool Connection.initial refl in
    let (same, pinged, restored) =
      database-IsRestored from_url (ping (fresh from_url)) schema _ _ _ held h in
    (rw same pinged, restored)
