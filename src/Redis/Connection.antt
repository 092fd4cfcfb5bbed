-- ===== src/Redis/Connection.antt =====
-- `RedisManager` of src/redis/connection.py, and `handle_redis_errors` of src/redis/errors.py. The
-- answers of redis-py are arguments.
pub mod Lifecycle
use messenger_backend.Base.{ℕ, String, Option, none, some, List, [], ◌∷◌}

-- The exceptions of redis-py that the decorator tells apart.
pub data NativeError : Type 0 where
  native_timeout native_connection native_redis : NativeError

-- src/redis/errors.py
pub data RedisError : Type 0 where
  client_not_initialized connection_error timeout_error command_error : RedisError

pub data Exception : Type 0 where
  native : NativeError → Exception
  redis : RedisError → Exception
  other : String → Exception

pub data Outcome (A : Type 0) : Type 0 where
  returns : A → Outcome A
  raises : Exception → Outcome A

abbrev pub translate : Exception → Exception
translate (native native_timeout) = redis timeout_error
translate (native native_connection) = redis connection_error
translate (native native_redis) = redis command_error
translate e = e

abbrev pub handle_redis_errors : {A : Type 0} → Outcome A → Outcome A
handle_redis_errors (returns a) = returns a
handle_redis_errors (raises e) = raises (translate e)

-- A pool, and a client by the pool that it was made with.
abbrev pub Pool : Type 0
Pool = ℕ

pub record Client : Type 0 where
  pub connection_pool : Pool

pub record RedisManager : Type 0 where
  pub pool : Option Pool
  pub client : Option Client

abbrev pub initial : RedisManager
initial = record { pool = none; client = none }

-- The reply to `ping`, of which nothing is used.
abbrev pub pinged : Client → Outcome (Unit {0}) → Outcome Client
pinged c (returns _) = returns c
pinged c (raises e) = raises e

-- `connect` makes the given pool and asks for one reply, unless there is a client.
abbrev pub connect_to :
    Option Client
    → Pool
    → (Client → Outcome (Unit {0}))
    → RedisManager
    → Outcome Client × RedisManager
connect_to (some c) from_url ping m = (returns c, m)
connect_to none from_url ping m =
    let c : Client = record { connection_pool = from_url } in
    (pinged c (ping c), record { pool = some from_url; client = some c })

unfoldable pub connect :
    Pool → (Client → Outcome (Unit {0})) → RedisManager → Outcome Client × RedisManager
connect from_url ping m =
    let (r, after) = connect_to m.client from_url ping m in (handle_redis_errors r, after)

abbrev pub without_pool : Option Pool → Option Exception → RedisManager → RedisManager
without_pool none closed m = m
without_pool (some p) none m = record m { pool = none }
without_pool (some p) (some e) m = m

abbrev pub without_client :
    Option Client → Option Exception → Option Exception → RedisManager → RedisManager
without_client none aclose closed m = without_pool m.pool closed m
without_client (some c) none closed m =
    let n = record m { client = none } in without_pool n.pool closed n
without_client (some c) (some e) closed m = m

-- What `aclose` of the client and of the pool raise is logged; the rest of `disconnect` is skipped.
unfoldable pub disconnect : Option Exception → Option Exception → RedisManager → RedisManager
disconnect aclose closed m = without_client m.client aclose closed m

abbrev pub or_not_initialized : Option Client → Outcome Client
or_not_initialized none = raises (redis client_not_initialized)
or_not_initialized (some c) = returns c

unfoldable pub client : RedisManager → Outcome Client
client m = or_not_initialized m.client

-- The life of a manager, with what redis-py answers.
pub data Call : Type 0 where
  connects : Pool → (Client → Outcome (Unit {0})) → Call
  disconnects : Option Exception → Option Exception → Call

unfoldable pub after : List Call → RedisManager → RedisManager
after [] m = m
after (connects from_url ping ∷ cs) m = after cs (connect from_url ping m).1
after (disconnects aclose closed ∷ cs) m = after cs (disconnect aclose closed m)
