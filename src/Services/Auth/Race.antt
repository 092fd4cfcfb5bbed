-- ===== src/Services/Auth/Race.antt =====
-- Concurrent calls of `AuthService.refresh` of src/services/auth.py with one refresh token. The query
-- of `get_refresh_token` ends with `FOR UPDATE` (`_with_lock` of src/database/queries.py), so it waits
-- while another transaction holds the row. The isolation level is PostgreSQL's READ COMMITTED: a
-- statement reads what is committed when it runs, and what its own transaction has written; and the
-- statements of other transactions run between those of the transaction.
pub mod Spent
pub mod Rotation
pub mod Exclusion
pub mod Agreement
use messenger_backend.Base.{
  ℕ, String, ◌≡◌, ◌⊎◌, Bool, true, false, not, Option, none, some, List, [], ◌∷◌, ◌++◌, map, ◌==◌,
  if◌then◌else◌, any, keep, update,
}
use messenger_backend.Database.Models.{Uuid, Timestamp, Token, is_expired}
use messenger_backend.Database.Fetch
use messenger_backend.Database.Sql.{Statement, done, execute, of_token, of_owner, revoke}
use messenger_backend.Database.Sql
use messenger_backend.Database.Tables.{Db}
use messenger_backend.Effects.{Result, ok, err, Exn, service}
use messenger_backend.External.{External}
use messenger_backend.Services.Auth.{access_row, refresh_row}
use messenger_backend.Services.Errors.{token_expired}
use messenger_backend.Services.Request.{TokenPair}

-- What an open transaction has written: the digests of the rows that it has revoked, and the rows
-- that it has inserted.
pub record Writes : Type 0 where
  pub access_revoked : List String
  pub refresh_revoked : List String
  pub access_new : List Token
  pub refresh_new : List Token

abbrev pub no_writes : Writes
no_writes = record { access_revoked = []; refresh_revoked = []; access_new = []; refresh_new = [] }

-- The rows of a table under such writes.
abbrev pub written : List String → List Token → List Token → List Token
written revoked new rows = update (λ t. any (λ h. of_token h t) revoked) revoke (new ++ rows)

-- The tables as the transaction sees them, and as they are once it has committed.
abbrev pub visible : Writes → Db → Db
visible ws db = record db {
  access_tokens = written ws.access_revoked ws.access_new db.access_tokens;
  refresh_tokens = written ws.refresh_revoked ws.refresh_new db.refresh_tokens;
}

-- What a statement of `refresh` adds to the writes, on the tables that it sees.
abbrev pub write : Statement → Db → Writes → Writes
write (Sql.revoke_refresh_token h) db ws = record ws { refresh_revoked = h ∷ ws.refresh_revoked }
write (Sql.revoke_all_user_access_tokens i) db ws = record ws {
  access_revoked =
      map (λ t. t.token_hash) (keep (of_owner i) db.access_tokens) ++ ws.access_revoked;
}
write (Sql.revoke_all_user_refresh_tokens i) db ws = record ws {
  refresh_revoked =
      map (λ t. t.token_hash) (keep (of_owner i) db.refresh_tokens) ++ ws.refresh_revoked;
}
write (Sql.insert_access_token t) db ws = record ws { access_new = t ∷ ws.access_new }
write (Sql.insert_refresh_token t) db ws = record ws { refresh_new = t ∷ ws.refresh_new }
write _ db ws = ws

-- `UPDATE 0` of the token raises NotFoundError.
abbrev pub is_missed : Statement → ℕ → Bool
is_missed (Sql.revoke_refresh_token h) n = n == 0
is_missed _ n = false

-- What the transaction does after the locked read: its statements in their order, and whether the
-- token was used before; or the exception that it raises.
abbrev pub Plan : Type 0
Plan = Result (List Statement × Bool)

unfoldable pub after_read : ⦃x : External⦄ → Timestamp → String → TokenPair → Token → Plan
after_read now refresh_hash pair t =
    if t.is_revoked
    then ok (
      Sql.revoke_all_user_access_tokens t.user_id
          ∷ Sql.revoke_all_user_refresh_tokens t.user_id
          ∷ [],
      true,
    )
    else if is_expired now t
    then err (service token_expired)
    else ok (
      Sql.revoke_refresh_token refresh_hash
          ∷ Sql.insert_access_token (access_row t.user_id pair)
          ∷ Sql.insert_refresh_token (refresh_row t.user_id pair)
          ∷ [],
      false,
    )

-- What may be raised: the exception of the code itself, or any of the driver.
abbrev pub IsRaised : Plan → Exn → Type 0
IsRaised (err e) x = x ≡ e
IsRaised (ok p) x = Unit

-- Where the transaction of a call is: not begun or waiting; past the locked read, which gave this
-- row, with what is left to do and what is written; or ended, where a row that is missing gives
-- `none`.
pub data Phase : Type 0 where
  outside : Phase
  holding : Token → Plan → Writes → Phase
  ended : Option (Result (Uuid × Bool)) → Phase

-- The call has exchanged the token for its new pair.
abbrev pub has_rotated : Phase → Bool
has_rotated (ended (some (ok (_, is_reused)))) = not is_reused
has_rotated _ = false

-- The committed tables, the call that holds the row, and the calls, which are numbered.
pub record Calls : Type 0 where
  pub db : Db
  pub lock : Option ℕ
  pub phase : ℕ → Phase

abbrev pub moved : ℕ → Phase → (ℕ → Phase) → ℕ → Phase
moved i p f j = if j == i then p else f j

abbrev pub begin_at : Db → Calls
begin_at db = record { db = db; lock = none; phase = λ _. outside }

-- A token that another transaction inserts has another digest.
abbrev pub IsOther : String → Statement → Type 0
IsOther h (Sql.insert_refresh_token t) = of_token h t ≡ false
IsOther h _ = Unit

-- The digest presented, and the time and the new pair of each call.
module _ ⦃x : External⦄ (h : String) (now : ℕ → Timestamp) (pair : ℕ → TokenPair) where
  pub data Step (c : Calls) : Calls → Type 0 where
    locks :
        (i : ℕ) (t : Token)
        → c.phase i ≡ outside
        → c.lock ≡ none
        → Fetch.refresh_token h c.db ≡ some t
        → Step c (record c {
          lock = some i;
          phase = moved i (holding t (after_read (now i) h (pair i) t) no_writes) c.phase;
        })
    -- No row, so none is locked: NotFoundError.
    misses :
        (i : ℕ)
        → c.phase i ≡ outside
        → Fetch.refresh_token h c.db ≡ none
        → Step c (record c { phase = moved i (ended none) c.phase })
    -- One statement, whose writes no other transaction sees yet.
    executes :
        (i : ℕ) (t : Token) (s : Statement) (ss : List Statement) (b : Bool) (ws : Writes) {n : ℕ}
        {db' : Db}
        → c.phase i ≡ holding t (ok (s ∷ ss, b)) ws
        → execute s (visible ws c.db) ≡ done n db'
        → is_missed s n ≡ false
        → Step c (record c {
          phase = moved i (holding t (ok (ss, b)) (write s (visible ws c.db) ws)) c.phase;
        })
    -- The commit makes the writes visible, and frees the row.
    commits :
        (i : ℕ) (t : Token) (b : Bool) (ws : Writes)
        → c.phase i ≡ holding t (ok ([], b)) ws
        → Step c (record c {
          db = visible ws c.db;
          lock = none;
          phase = moved i (ended (some (ok (t.user_id, b)))) c.phase;
        })
    -- An exception, of an expired token, of a statement or of the commit: the rollback drops the
    -- writes and frees the row.
    rolls_back :
        (i : ℕ) (t : Token) (todo : Plan) (ws : Writes) (e : Exn)
        → c.phase i ≡ holding t todo ws
        → IsRaised todo e
        → Step c (record c { lock = none; phase = moved i (ended (some (err e))) c.phase })
    -- A statement of any other transaction, committed; one that writes the locked row waits.
    elsewhere :
        (s : Statement) {n : ℕ} {db' : Db}
        → IsOther h s
        → execute s c.db ≡ done n db'
        → (c.lock ≡ none) ⊎ (Fetch.refresh_token h db' ≡ Fetch.refresh_token h c.db)
        → Step c (record c { db = db' })

  pub data Steps : Calls → Calls → Type 0 where
    here : (c : Calls) → Steps c c
    next : {a b c : Calls} → Step a b → Steps b c → Steps a c
