-- ===== src/Services/Consistency/Sessions.antt =====
-- The methods of AuthService keep the integrity of the tables.
use messenger_backend.Base.{String, Bool, Option}
use messenger_backend.Database.Tables.{Db}
use messenger_backend.Database.Models
use messenger_backend.Database.Models.{Uuid, Timestamp, Token, Membership}
use messenger_backend.Database.Queries
use messenger_backend.Database.Queries.{run, finish, found}
use messenger_backend.Effects.Keeps.{Keeps, Keeps-raise, Keeps-if}
use messenger_backend.External.{External}
use messenger_backend.Services.Auth.{
  issue_token_pair, register_tx, register, login_tx, login, revoke_sessions, reissue, rotate,
  refresh_tx, announce, refresh, logout_tx, logout_hashes, logout,
}
use messenger_backend.Services.Request.{Request, AuthConfig, TokenPair}
use messenger_backend.Services.Translation.{handle_db_constraint_error, handle_db_not_found_error}
use messenger_backend.Services.Consistency.Rules.{
  IsKept, run_rules, Keeps-for_given, Keeps-evict_local,
}
use messenger_backend.Services.Errors.{token_expired}
use messenger_backend.Effects.{service}
use messenger_backend.Database.Models.{is_expired}

module _ ⦃x : External⦄ {P : Db → Type 0} (k : IsKept P) where
  issue_token_pair-Keeps : (u : Uuid) (pair : TokenPair) → Keeps P (issue_token_pair u pair)
  unfolding issue_token_pair Queries.create_access_token Queries.create_refresh_token
  issue_token_pair-Keeps u pair = search run_rules depth 10

  register_tx-Keeps : (u : Models.User) (pair : TokenPair) → Keeps P (register_tx u pair)
  unfolding register_tx Queries.create_user
  register_tx-Keeps u pair = search (run_rules, issue_token_pair-Keeps) depth 10

  pub register-Keeps :
      (c : AuthConfig) (r : Request) (name password : String) → Keeps P (register c r name password)
  unfolding register handle_db_constraint_error
  register-Keeps c r name password = search (run_rules, register_tx-Keeps) depth 10

  login_tx-Keeps :
      (r : Request) (name password : String) (pair : TokenPair)
      → Keeps P (login_tx r name password pair)
  unfolding login_tx Queries.get_user_by_username Queries.reactivate_user
      Queries.update_user_password
  login_tx-Keeps r name password pair = search (run_rules, issue_token_pair-Keeps) depth 12

  pub login-Keeps :
      (c : AuthConfig) (r : Request) (name password : String) → Keeps P (login c r name password)
  unfolding login handle_db_constraint_error handle_db_not_found_error
  login-Keeps c r name password = search (run_rules, login_tx-Keeps) depth 10

  revoke_sessions-Keeps : (u : Uuid) → Keeps P (revoke_sessions u)
  unfolding revoke_sessions Queries.revoke_all_user_access_tokens
      Queries.revoke_all_user_refresh_tokens
  revoke_sessions-Keeps u = search run_rules depth 10

  reissue-Keeps : (h : String) (u : Uuid) (pair : TokenPair) → Keeps P (reissue h u pair)
  unfolding reissue Queries.revoke_refresh_token
  reissue-Keeps h u pair = search (run_rules, issue_token_pair-Keeps) depth 10

  rotate-Keeps :
      (now : Timestamp) (h : String) (pair : TokenPair) (t : Token) → Keeps P (rotate now h pair t)
  unfolding rotate
  rotate-Keeps now h pair t = Keeps-if t.is_revoked (revoke_sessions-Keeps t.user_id) (
      Keeps-if (is_expired now t) (Keeps-raise (service token_expired))
        (reissue-Keeps h t.user_id pair))

  refresh_tx-Keeps :
      (now : Timestamp) (h : String) (pair : TokenPair) → Keeps P (refresh_tx now h pair)
  unfolding refresh_tx Queries.get_refresh_token
  refresh_tx-Keeps now h pair = search (run_rules, rotate-Keeps)

  announce-Keeps : (h : String) (u : Uuid) (b : Bool) → Keeps P (announce h u b)
  unfolding announce
  announce-Keeps h u b = Keeps-if b (search (run_rules)) (search (run_rules))

  pub refresh-Keeps : (c : AuthConfig) (r : Request) (raw : String) → Keeps P (refresh c r raw)
  unfolding refresh handle_db_constraint_error handle_db_not_found_error
  refresh-Keeps c r raw = search (run_rules, refresh_tx-Keeps, announce-Keeps) depth 10

  logout_tx-Keeps : (h : String) (a : Option String) → Keeps P (logout_tx h a)
  unfolding logout_tx Queries.revoke_refresh_token Queries.revoke_access_token
  logout_tx-Keeps h a = search (run_rules, Keeps-for_given) depth 10

  logout_hashes-Keeps : (h : String) (a : Option String) → Keeps P (logout_hashes h a)
  unfolding logout_hashes
  logout_hashes-Keeps h a =
      search (run_rules, logout_tx-Keeps, Keeps-for_given, Keeps-evict_local) depth 10

  pub logout-Keeps : (raw : String) (a : Option String) → Keeps P (logout raw a)
  unfolding logout handle_db_not_found_error
  logout-Keeps raw a = search (run_rules, logout_hashes-Keeps)
