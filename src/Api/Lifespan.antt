-- ===== src/Api/Lifespan.antt =====
-- `lifespan` of src/main.py: the start and the end of a worker, with the managers of
-- src/database/connection.py and src/redis/connection.py. What PostgreSQL and Redis answer are
-- arguments.
pub mod Restored
use messenger_backend.Base.{ℕ, String, Option, none, some, List, [], ◌∷◌}
use messenger_backend.Database.Connection
use messenger_backend.Database.Connection.{
  DatabaseManager, Created, Connected, connected, retry_error, raised,
}
use messenger_backend.Redis.Connection as Redis
use messenger_backend.Redis.Connection.{RedisManager, Client}

pub data Listener : Type 0 where
  pubsub_task stream_task : Listener

-- The managers of the worker, the listeners that were started and those whose `cancel()` was called;
-- and the numbers of the tasks of `spawn_task` that run, which the lifespan does not look at.
pub record Application : Type 0 where
  pub db : DatabaseManager
  pub redis : RedisManager
  pub tasks : List Listener
  pub cancelled : List Listener
  pub background : List ℕ

-- How the start ends: it yields, with the client that the manager gives out, or raises.
pub data Started : Type 0 where
  running : Client → Started
  aborted : Started

abbrev pub initial : Application
initial = record {
  db = Connection.initial;
  redis = Redis.initial;
  tasks = [];
  cancelled = [];
  background = [];
}

-- The listeners are started once there is a client.
abbrev pub with_client : Redis.Outcome Client → Application → Started × Application
with_client (Redis.returns c) app =
    (running c, record app { tasks = pubsub_task ∷ stream_task ∷ [] })
with_client (Redis.raises e) app = (aborted, app)

abbrev pub after_redis : Redis.Outcome Client × RedisManager → Application → Started × Application
after_redis (Redis.returns _, m) app = with_client (Redis.client m) (record app { redis = m })
after_redis (Redis.raises e, m) app = (aborted, record app { redis = m })

-- The schema is set up on a connection of the pool, which may raise.
abbrev pub after_schema :
    Connection.Outcome (Unit {0})
    → Redis.Outcome Client × RedisManager
    → Application
    → Started × Application
after_schema (Connection.returns _) connecting app = after_redis connecting app
after_schema (Connection.raises e) connecting app = (aborted, app)

abbrev pub after_database :
    (Connected × ℕ) × DatabaseManager
    → Connection.Outcome (Unit {0})
    → Redis.Outcome Client × RedisManager
    → Application
    → Started × Application
after_database ((connected p, n), m) schema connecting app =
    after_schema schema connecting (record app { db = m })
after_database ((_, n), m) schema connecting app = (aborted, record app { db = m })

unfoldable pub startup :
    (ℕ → Created)
    → Connection.Outcome (Unit {0})
    → Redis.Pool
    → (Client → Redis.Outcome (Unit {0}))
    → Started × Application
startup create_pool schema from_url ping =
    after_database (Connection.connect create_pool Connection.initial) schema
      (Redis.connect from_url ping Redis.initial) initial

-- What `asyncio.gather` of the two listeners ends with: `failed` is any exception of a listener but
-- CancelledError.
pub data Gathered : Type 0 where
  returned : Gathered
  cancelled_error : Gathered
  failed : String → Gathered

-- How the code after the `yield` ends: at its last line, or by what the gather or the close of the
-- pool of the database raises.
pub data Stopped : Type 0 where
  finished : Stopped
  gather_raised : String → Stopped
  close_raised : Connection.Exception → Stopped

abbrev pub after_close :
    Connection.Outcome (Unit {0}) × DatabaseManager → Application → Stopped × Application
after_close (Connection.returns _, m) app = (finished, record app { db = m })
after_close (Connection.raises e, m) app = (close_raised e, record app { db = m })

abbrev pub teardown :
    Option Redis.Exception
    → Option Redis.Exception
    → Option Connection.Exception
    → Application
    → Stopped × Application
teardown aclose closed_redis closed app =
    after_close (Connection.disconnect closed app.db)
      (record app { redis = Redis.disconnect aclose closed_redis app.redis })

-- Only a CancelledError is caught.
abbrev pub after_gather :
    Gathered → (Application → Stopped × Application) → Application → Stopped × Application
after_gather returned rest app = rest app
after_gather cancelled_error rest app = rest app
after_gather (failed e) rest app = (gather_raised e, app)

-- Both listeners are asked to end, then awaited, then both managers disconnect. What the gather ends
-- with and what closing raises are arguments, the latter of the Redis client, of the Redis pool and
-- of the pool of the database.
unfoldable pub shutdown :
    Gathered
    → Option Redis.Exception
    → Option Redis.Exception
    → Option Connection.Exception
    → Application
    → Stopped × Application
shutdown gathered aclose closed_redis closed app =
    after_gather gathered (teardown aclose closed_redis closed)
      (record app { cancelled = pubsub_task ∷ stream_task ∷ [] })
