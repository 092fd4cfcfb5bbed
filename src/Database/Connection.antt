-- ===== src/Database/Connection.antt =====
-- `DatabaseManager` of src/database/connection.py: the life of the pool, and the connections and
-- transactions that it gives out. asyncpg's answers are arguments.
pub mod Outcomes
use messenger_backend.Base.{ℕ, zero, suc, String, Option, none, some}

-- The exceptions of asyncpg: InterfaceError; PostgresError, of which SerializationError and
-- QueryCanceledError are told apart; and InternalClientError with its kinds, such as ProtocolError and
-- OutdatedSchemaCacheError, which is neither.
pub data DriverError : Type 0 where
  interface_error query_canceled_error serialization_error postgres_error : DriverError
  internal_client_error : DriverError

-- src/database/errors.py: the exceptions that the manager raises itself.
pub data DatabaseError : Type 0 where
  pool_not_initialized connection_lost timed_out serialization_conflict unexpected : DatabaseError

-- What leaves a block: an exception of the driver, one of the module's errors, or any other.
pub data Exception : Type 0 where
  driver : DriverError → Exception
  database : DatabaseError → Exception
  other : String → Exception

pub data Outcome (A : Type 0) : Type 0 where
  returns : A → Outcome A
  raises : Exception → Outcome A

-- Pools and connections are told apart by a number.
abbrev pub Pool : Type 0
Pool = ℕ

abbrev pub Conn : Type 0
Conn = ℕ

pub record DatabaseManager : Type 0 where
  pub pool : Option Pool

abbrev pub initial : DatabaseManager
initial = record { pool = none }

-- What one call of `asyncpg.create_pool` does.
pub data Created : Type 0 where
  opened : Pool → Created
  os_error failed : Created

-- How `connect` ends: tenacity raises a RetryError once its attempts are used up.
pub data Connected : Type 0 where
  connected : Pool → Connected
  retry_error raised : Connected

abbrev pub max_attempts : ℕ
max_attempts = 10

abbrev pub attempted :
    Created
    → ℕ
    → DatabaseManager
    → (Connected × ℕ) × DatabaseManager
    → (Connected × ℕ) × DatabaseManager
attempted (opened p) n m rest = ((connected p, suc n), record m { pool = some p })
attempted os_error n m rest = rest
attempted failed n m rest = ((raised, suc n), m)

-- The attempts from the n-th on, of which so many are left, with the number of calls of
-- `create_pool`.
abbrev pub attempts : (ℕ → Created) → ℕ → ℕ → DatabaseManager → (Connected × ℕ) × DatabaseManager
attempts create_pool n zero m = ((retry_error, n), m)
attempts create_pool n (suc left) m =
    attempted (create_pool n) n m (attempts create_pool (suc n) left m)

abbrev pub connect_to :
    (ℕ → Created) → Option Pool → DatabaseManager → (Connected × ℕ) × DatabaseManager
connect_to create_pool (some p) m = ((connected p, 0), m)
connect_to create_pool none m = attempts create_pool 0 max_attempts m

unfoldable pub connect : (ℕ → Created) → DatabaseManager → (Connected × ℕ) × DatabaseManager
connect create_pool m = connect_to create_pool m.pool m

-- `close` of the pool may raise; then the pool stays.
abbrev pub close_pool :
    Option Exception → Option Pool → DatabaseManager → Outcome (Unit {0}) × DatabaseManager
close_pool closed none m = (returns tt, m)
close_pool none (some p) m = (returns tt, record m { pool = none })
close_pool (some e) (some p) m = (raises e, m)

unfoldable pub disconnect :
    Option Exception → DatabaseManager → Outcome (Unit {0}) × DatabaseManager
disconnect closed m = close_pool closed m.pool m

abbrev pub or_not_initialized : Option Pool → Outcome Pool
or_not_initialized none = raises (database pool_not_initialized)
or_not_initialized (some p) = returns p

unfoldable pub pool : DatabaseManager → Outcome Pool
pool m = or_not_initialized m.pool

-- The `except` clauses of `connection`, in their order.
abbrev pub translate : Exception → Exception
translate (driver interface_error) = database connection_lost
translate (driver query_canceled_error) = database timed_out
translate (driver serialization_error) = database unexpected
translate (driver postgres_error) = database unexpected
translate e = e

module _ {A : Type 0} where
  abbrev pub translated : Outcome A → Outcome A
  translated (returns a) = returns a
  translated (raises e) = raises (translate e)

  abbrev pub entered : Outcome Conn → (Conn → Outcome A) → Outcome A
  entered (returns c) body = body c
  entered (raises e) body = raises e

  -- The block runs on the given connection, or on one that the pool is asked for.
  abbrev pub on_pool : Option Pool → (Pool → Outcome Conn) → (Conn → Outcome A) → Outcome A
  on_pool none acquire body = raises (database pool_not_initialized)
  on_pool (some p) acquire body = translated (entered (acquire p) body)

  unfoldable pub connection :
      DatabaseManager → (Pool → Outcome Conn) → Option Conn → (Conn → Outcome A) → Outcome A
  connection m acquire (some c) body = body c
  connection m acquire none body = on_pool m.pool acquire body

  -- The inner `except` of `transaction`.
  abbrev pub conflicts : Outcome A → Outcome A
  conflicts (raises (driver serialization_error)) = raises (database serialization_conflict)
  conflicts r = r

  -- `begin` is asyncpg's own transaction on the connection, which runs the block and may raise.
  unfoldable pub transaction :
      DatabaseManager
      → (Pool → Outcome Conn)
      → (Conn → (Conn → Outcome A) → Outcome A)
      → Option Conn
      → (Conn → Outcome A)
      → Outcome A
  unfolding connection
  transaction m acquire begin conn body = connection m acquire conn (λ c. conflicts (begin c body))
