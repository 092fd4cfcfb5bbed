-- ===== src/Database/Errors.antt =====
-- The exceptions that the program raises and handles (src/database/errors.py, src/redis/errors.py,
-- FastAPI's HTTPException), but for those of the services. An identifier keeps the values that its
-- text is made of.
use messenger_backend.Base.{ℕ, String}
use messenger_backend.Database.Enums.{Constraint}

pub data Value : Type 0 where
  unknown : Value
  text : String → Value
  uuid : ℕ → Value
  uuids : ℕ → ℕ → Value

-- asyncpg's IntegrityConstraintViolationError: of a named constraint, or a null in a column that
-- allows none.
pub data Violation : Type 0 where
  named : Constraint → Violation
  not_null : Violation
