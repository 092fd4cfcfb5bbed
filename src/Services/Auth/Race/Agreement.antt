-- ===== src/Services/Auth/Race/Agreement.antt =====
-- The statements of the concurrent calls are those of the transaction of `refresh` of
-- src/services/auth.py as the service runs it.
use messenger_backend.Base.{
  String, ◌≡◌, Bool, Option, none, some, if◌then◌else◌, List, [], ◌∷◌, arith, Bool-cases, inl, inr,
}
use messenger_backend.Database.Models.{Uuid, Timestamp, Token, is_expired}
use messenger_backend.Database.Queries
use messenger_backend.Database.Queries.{run}
use messenger_backend.Database.Sql.{Statement, Outcome, done, fails, execute, insert, violated}
use messenger_backend.Database.Tables.{Db}
use messenger_backend.Effects.{World, ok, err, effects}
use messenger_backend.External.{External}
use messenger_backend.Services.Auth.{rotate, reissue, revoke_sessions, issue_token_pair}
use messenger_backend.Services.Auth.Race.{Plan, is_missed, after_read}
use messenger_backend.Services.Request.{TokenPair}

module _ ⦃x : External⦄ where
  abbrev replay_after : Statement → (Db → Option Db) → Outcome → Option Db
  replay_after s rest (done n db) = if is_missed s n then none else rest db
  replay_after s rest (fails r) = none

  -- The tables after the statements, where each succeeds.
  abbrev pub replay : List Statement → Db → Option Db
  replay [] db = some db
  replay (s ∷ ss) db = replay_after s (replay ss) (execute s db)

  abbrev result_with : Bool → Option Db → Option (Bool × Db)
  result_with b none = none
  result_with b (some db) = some (b, db)

  -- What a plan leads to when nothing comes in between.
  abbrev pub replayed : Plan → Db → Option (Bool × Db)
  replayed (ok (ss, b)) db = result_with b (replay ss db)
  replayed (err e) db = none

  -- When the transaction returns past the locked read, the statements of its plan, run one after the
  -- other, lead to the same tables, with the same result.
  pub rotate-replayed :
      (now : Timestamp) (h : String) (pair : TokenPair) (t : Token) (w w' : World) {r : Uuid × Bool}
      → rotate now h pair t w ≡ (ok r, w')
      → replayed (after_read now h pair t) w.db ≡ some (r.1, w'.db)
  unfolding rotate reissue revoke_sessions issue_token_pair Queries.revoke_refresh_token after_read
      Queries.create_access_token Queries.create_refresh_token Queries.revoke_all_user_access_tokens
      Queries.revoke_all_user_refresh_tokens run execute insert violated effects
  rotate-replayed now h pair t w w' e = elim (Bool-cases t.is_revoked) [
    | inl revoked ↦ ground arith
    | inr valid ↦ elim (Bool-cases (is_expired now t)) [
      | inl late ↦ ground arith
      | inr early ↦ ground arith
    ]
  ]
