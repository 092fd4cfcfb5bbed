-- ===== src/Services/Auth/Replay/Branches.antt =====
-- The branches of `AuthService.refresh` of src/services/auth.py, one by one.
use messenger_backend.Base.{
  String, ◌≡◌, ◌≢◌, true, false, none, some, List, [], ◌∷◌, ◌++◌, arith, any, update, str_eq, count,
}
use messenger_backend.Database.Models.{Uuid, Token, is_expired}
use messenger_backend.Database.Fetch
use messenger_backend.Database.Sql.{of_token, of_owner, revoke, execute, insert, violated}
use messenger_backend.Database.Tables.{Db, has_user}
use messenger_backend.Database.Queries
use messenger_backend.Database.Queries.{found, run}
use messenger_backend.Effects.{World, ok, err, service, effects}
use messenger_backend.External.{External}
use messenger_backend.Redis.Events.{token_revoked_event, to_dict}
use messenger_backend.Services.Auth.{
  access_row, refresh_row, issue_token_pair, revoke_sessions, reissue, rotate, refresh_tx, announce,
  refresh,
}
use messenger_backend.Services.Errors.{invalid_token, token_expired}
use messenger_backend.Services.Request.{Request, AuthConfig, TokenPair, generate_token_pair}
use messenger_backend.Services.Translation.{handle_db_constraint_error, handle_db_not_found_error}

-- The tables in which all sessions of a user have ended.
abbrev pub end_sessions : Uuid → Db → Db
end_sessions i db = record db {
  access_tokens = update (of_owner i) revoke db.access_tokens;
  refresh_tokens = update (of_owner i) revoke db.refresh_tokens;
}

module _ ⦃x : External⦄ (settings : AuthConfig) (req : Request) (raw : String) (w : World) where
  pub refresh_unknown :
      Fetch.refresh_token (x.hash_token raw) w.db ≡ none
      → refresh settings req raw w ≡ (err (service invalid_token), w)
  unfolding refresh refresh_tx handle_db_constraint_error handle_db_not_found_error
      Queries.get_refresh_token found effects
  refresh_unknown e = ground arith

  -- The tables after a rotation: the old token revoked, the new pair added.
  abbrev pub rotated : Token → Db → Db
  rotated t db =
      let pair = generate_token_pair settings req in
      record db {
        access_tokens = access_row t.user_id pair ∷ db.access_tokens;
        refresh_tokens =
            refresh_row t.user_id pair
            ∷ update (of_token (x.hash_token raw)) revoke db.refresh_tokens;
      }

  pub refresh_expired :
      (t : Token)
      → Fetch.refresh_token (x.hash_token raw) w.db ≡ some t
      → t.is_revoked ≡ false
      → is_expired req.current_ts t ≡ true
      → refresh settings req raw w ≡ (err (service token_expired), w)
  unfolding refresh refresh_tx rotate handle_db_constraint_error handle_db_not_found_error
      Queries.get_refresh_token found effects
  refresh_expired t e fresh late = ground arith

  pub refresh_valid :
      (t : Token) {pair : TokenPair} {w' : World}
      → Fetch.refresh_token (x.hash_token raw) w.db ≡ some t
      → t.is_revoked ≡ false
      → is_expired req.current_ts t ≡ false
      → refresh settings req raw w ≡ (ok pair, w')
      → (pair ≡ generate_token_pair settings req)
        × (w'.db ≡ rotated t w.db)
        × (any
              (λ r. str_eq (x.hash_token req.refresh_token) r.token_hash)
              (update (of_token (x.hash_token raw)) revoke w.db.refresh_tokens)
            ≡ false)
  unfolding refresh refresh_tx rotate reissue issue_token_pair announce handle_db_constraint_error
      handle_db_not_found_error Queries.get_refresh_token Queries.revoke_refresh_token
      Queries.create_access_token Queries.create_refresh_token run execute insert violated found
      effects
  refresh_valid t e fresh early h = ground arith

  -- The digest is that of no stored token.
  abbrev pub IsNew : String → List Token → Type 0
  IsNew raw_token l = any (λ r. str_eq (x.hash_token raw_token) r.token_hash) l ≡ false

  pub refresh_succeeds_when_accepted :
      (t : Token)
      → Fetch.refresh_token (x.hash_token raw) w.db ≡ some t
      → t.is_revoked ≡ false
      → is_expired req.current_ts t ≡ false
      → has_user w.db.users t.user_id ≡ true
      → IsNew req.access_token w.db.access_tokens
      → IsNew req.refresh_token (update (of_token (x.hash_token raw)) revoke w.db.refresh_tokens)
      → count (of_token (x.hash_token raw)) w.db.refresh_tokens ≢ 0
      → w.faults ≡ []
      → refresh settings req raw w ≡ (
        ok (generate_token_pair settings req),
        record w {
          db = rotated t w.db;
          stream = w.stream ++ to_dict (token_revoked_event (x.hash_token raw)) ∷ [];
        },
      )
  unfolding refresh refresh_tx rotate reissue issue_token_pair announce handle_db_constraint_error
      handle_db_not_found_error Queries.get_refresh_token Queries.revoke_refresh_token
      Queries.create_access_token Queries.create_refresh_token run execute insert violated found
      effects
  refresh_succeeds_when_accepted t e fresh early owner new_a new_r hit up = ground arith

  pub not_reused :
      (t : Token) {pair : TokenPair} {w' : World}
      → Fetch.refresh_token (x.hash_token raw) w.db ≡ some t
      → t.is_revoked ≡ true
      → refresh settings req raw w ≢ (ok pair, w')
  unfolding refresh refresh_tx rotate announce revoke_sessions handle_db_constraint_error
      handle_db_not_found_error Queries.get_refresh_token Queries.revoke_all_user_access_tokens
      Queries.revoke_all_user_refresh_tokens run execute found effects
  not_reused t e revoked h = ground arith
