-- ===== src/Effects.antt =====
-- What a handler of one worker reads and writes, and how it ends: state passing with exceptions. A
-- transaction that raises is rolled back; what else was written stays.
pub mod Keeps
pub mod Inversion
use messenger_backend.Base.{ℕ, String, Bool, Option, none, some, List, [], ◌∷◌, ◌++◌, if◌then◌else◌}
use messenger_backend.Database.Enums.{Entity, Constraint}
use messenger_backend.Database.Models.{Uuid}
use messenger_backend.Database.Errors.{Value, Violation}
use messenger_backend.Database.Tables.{Db}
use messenger_backend.External.{Entries}
use messenger_backend.Redis.Events.{MembershipAction, RedisEvent, EventDict, to_dict}
use messenger_backend.Services.Errors.{ServiceError}

pub data RedisFault : Type 0 where
  timeout_error connection_error command_error : RedisFault

pub data Exn : Type 0 where
  -- asyncpg.IntegrityConstraintViolationError
  integrity : Violation → Exn
  -- src/database/errors.py: ConstraintViolationError, NotFoundError, and a DatabaseError of no
  -- class of its own
  constraint_violation : Option Constraint → Exn
  not_found : Entity → Value → Exn
  database_error : Exn
  -- src/redis/errors.py
  redis_error : RedisFault → Exn
  -- src/services/errors.py
  service : ServiceError → Exn
  -- fastapi.HTTPException
  http : ℕ → String → Exn
  -- argon2.exceptions.VerificationError
  argon2_error : Exn

pub data Result (A : Type 0) : Type 0 where
  ok : A → Result A
  err : Exn → Result A

-- The coroutines that the services hand to `spawn_task`, in the order of the calls.
pub data Task : Type 0 where
  push_group_membership_change : Uuid → Uuid → MembershipAction → Task
  group_deletion_side_effects : Uuid → List Uuid → Task
  push_to_user : Uuid → RedisEvent → Task
  push_to_group : Uuid → RedisEvent → Option Uuid → Task

-- `faults` says how the next Redis commands end; where it is used up, they succeed.
pub record World : Type 0 where
  pub db : Db
  pub cache : Entries
  pub stream : List EventDict
  pub tasks : List Task
  pub faults : List (Option RedisFault)

abbrev pub M : Type 0 → Type 0
M A = World → Result A × World

module _ {A : Type 0} where
  unfoldable pub pure : A → M A
  pure a w = (ok a, w)

  unfoldable pub raise : Exn → M A
  raise e w = (err e, w)

  unfoldable pub gets : (World → A) → M A
  gets f w = (ok (f w), w)

  unfoldable pub or_raise : Option A → Exn → M A
  or_raise none e w = (err e, w)
  or_raise (some a) e w = (ok a, w)

  -- `except` on one handler, which may return or raise in its turn.
  abbrev pub recover : (Exn → Result A) → Result A × World → Result A × World
  recover f (ok a, w) = (ok a, w)
  recover f (err e, w) = (f e, w)

  -- A decorator or an `except` clause.
  unfoldable pub handle : (Exn → Result A) → M A → M A
  handle f m w = recover f (m w)

abbrev pub continue : {A B : Type 0} → (A → M B) → Result A × World → Result B × World
continue f (ok a, w) = f a w
continue f (err e, w) = (err e, w)

infixl 5 ◌>>=◌ ◌>>◌
unfoldable pub ◌>>=◌ : {A B : Type 0} → M A → (A → M B) → M B
◌>>=◌ m f w = continue f (m w)

unfoldable pub ◌>>◌ : {A B : Type 0} → M A → M B → M B
unfolding ◌>>=◌
m >> k = m >>= λ _. k

unfoldable pub raise_if : Bool → Exn → M (Unit {0})
raise_if b e w = (if b then err e else ok tt, w)

-- `DatabaseManager.connection`: an asyncpg error that leaves the block is a DatabaseError.
abbrev pub from_driver : {A : Type 0} → Exn → Result A
from_driver (integrity _) = err database_error
from_driver e = err e

unfoldable pub connection : {A : Type 0} → M A → M A
unfolding handle
connection m = handle from_driver m

-- The tables as a transaction leaves them: what was written, or what was there before.
abbrev pub committed : {A : Type 0} → World → Result A × World → Result A × World
committed before (ok a, w) = (ok a, w)
committed before (err e, w) = (err e, record w { db = before.db })

-- `DatabaseManager.transaction`, of a transaction that runs alone.
unfoldable pub transaction : {A : Type 0} → M A → M A
unfolding connection
transaction m = connection (λ w. committed w (m w))

-- A Redis command that appends to the stream, by how the next commands end.
abbrev pub append_stream : List (Option RedisFault) → EventDict → World → Result (Unit {0}) × World
append_stream [] d w = (ok tt, record w { stream = w.stream ++ d ∷ [] })
append_stream (none ∷ rest) d w = (ok tt, record w { stream = w.stream ++ d ∷ []; faults = rest })
append_stream (some fault ∷ rest) d w = (err (redis_error fault), record w { faults = rest })

unfoldable pub publish_stream_event : RedisEvent → M (Unit {0})
publish_stream_event e w = append_stream w.faults (to_dict e) w

unfoldable pub spawn_task : Task → M (Unit {0})
spawn_task t w = (ok tt, record w { tasks = w.tasks ++ t ∷ [] })

-- Nothing of a program's own: its `unfolding` line opens the combinators above.
unfoldable pub effects : Unit {0}
unfolding pure raise gets or_raise handle ◌>>=◌ ◌>>◌ raise_if connection transaction
    publish_stream_event spawn_task
effects = tt
