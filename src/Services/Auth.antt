-- ===== src/Services/Auth.antt =====
-- AuthService of src/services/auth.py: registration, login, rotation of refresh tokens with reuse
-- detection, and logout.
pub mod Replay
pub mod Race
pub mod Login
pub mod Logout
use messenger_backend.Base.{
  String, Bool, true, false, Option, none, some, [], ◌∷◌, not, ◌||◌, str_eq, if◌then◌else◌,
}
use messenger_backend.Database.Enums.{Entity, Constraint}
use messenger_backend.Database.Models.{Uuid, Timestamp, User, Token, is_expired}
use messenger_backend.Database.Errors
use messenger_backend.Database.Queries
use messenger_backend.Effects.{
  service, argon2_error, M, pure, raise, ◌>>=◌, ◌>>◌, raise_if, transaction, ok,
  publish_stream_event,
}
use messenger_backend.External.{External, matches, mismatch, invalid_hash, failed, Verdict}
use messenger_backend.Redis.Events.{user_invalidated_event, token_revoked_event}
use messenger_backend.Services.Cache
use messenger_backend.Services.Errors.{
  ServiceError, invalid_credentials, invalid_token, token_expired, token_revoked,
}
use messenger_backend.Services.Request.{Request, AuthConfig, TokenPair, generate_token_pair}
use messenger_backend.Services.Translation.{
  Kwargs, Handler, raising, suppress, handle_db_constraint_error, handle_db_not_found_error,
  no_overrides,
}

-- Either side of `verify_password` in src/crypto/passwords.py.
unfoldable pub verdict : Verdict → M Bool
unfolding pure raise
verdict matches = pure true
verdict mismatch = pure false
verdict invalid_hash = pure false
verdict failed = raise argon2_error

abbrev pub or_false : Option Bool → Bool
or_false none = false
or_false (some b) = b

unfoldable pub when : Bool → M (Unit {0}) → M (Unit {0})
unfolding pure
when b m = if b then m else pure tt

abbrev pub access_row : ⦃x : External⦄ → Uuid → TokenPair → Token
access_row ⦃x⦄ user_id pair = record {
  token_hash = x.hash_token pair.access_token;
  user_id = user_id;
  is_revoked = false;
  expires_at = pair.access_token_expires_at;
}

abbrev pub refresh_row : ⦃x : External⦄ → Uuid → TokenPair → Token
refresh_row ⦃x⦄ user_id pair = record {
  token_hash = x.hash_token pair.refresh_token;
  user_id = user_id;
  is_revoked = false;
  expires_at = pair.refresh_token_expires_at;
}

-- The overrides of `login`.
abbrev pub login_constraints : Constraint → Option ServiceError
login_constraints Constraint.fk_access_tokens_user_id = some invalid_credentials
login_constraints Constraint.fk_refresh_tokens_user_id = some invalid_credentials
login_constraints _ = none

abbrev pub login_entities : {A : Type 0} → Entity → Option (Handler A)
login_entities Entity.user = some (raising invalid_credentials)
login_entities _ = none

abbrev pub refresh_entities : {A : Type 0} → Entity → Option (Handler A)
refresh_entities Entity.refresh_token = some (raising invalid_token)
refresh_entities _ = none

abbrev pub logout_entities : Entity → Option (Handler (Unit {0}))
logout_entities Entity.refresh_token = some (suppress tt)
logout_entities Entity.access_token = some (suppress tt)
logout_entities _ = none

module _ ⦃x : External⦄ where
  abbrev pub verify_password : String → String → M Bool
  verify_password password hashed = verdict (x.verify hashed password)

  abbrev pub needs_rehash : String → Bool
  needs_rehash hashed = or_false (x.check_needs_rehash hashed)

  unfoldable pub issue_token_pair : Uuid → TokenPair → M (Unit {0})
  issue_token_pair user_id pair =
      Queries.create_access_token (access_row user_id pair)
      >> Queries.create_refresh_token (refresh_row user_id pair)

  abbrev pub new_user : Request → String → String → User
  new_user req username password = record {
    user_id = req.uuid_v4;
    username = username;
    password_hash = x.hash req.salt password;
    deactivated = false;
    created_at = req.current_ts;
  }

  -- The transaction of `register`.
  unfoldable pub register_tx : User → TokenPair → M User
  register_tx model pair = do
    user ← Queries.create_user model
    issue_token_pair user.user_id pair
    pure user

  unfoldable pub register : AuthConfig → Request → String → String → M (User × TokenPair)
  register settings req username password =
      let pair : TokenPair = generate_token_pair settings req in
      handle_db_constraint_error no_overrides
        (("username", Errors.text username) ∷ ("password", Errors.text password) ∷ [])
        (do
          user ← transaction (register_tx (new_user req username password) pair)
          pure (user, pair))

  -- The transaction of `login`: the user, and whether caches must drop the account.
  unfoldable pub login_tx : Request → String → String → TokenPair → M (User × Bool)
  login_tx req username password pair = do
    user ← Queries.get_user_by_username username
    verified ← verify_password password user.password_hash
    raise_if (not verified) (service invalid_credentials)
    when user.deactivated (Queries.reactivate_user user.user_id)
    when (needs_rehash user.password_hash)
        (Queries.update_user_password user.user_id (x.hash req.salt password) user.password_hash)
    issue_token_pair user.user_id pair
    pure (user, user.deactivated || needs_rehash user.password_hash)

  unfoldable pub login : AuthConfig → Request → String → String → M (User × TokenPair)
  login settings req username password =
      let pair : TokenPair = generate_token_pair settings req in
      let kw : Kwargs =
        ("username", Errors.text username) ∷ ("password", Errors.text password) ∷ [] in
      handle_db_constraint_error login_constraints kw (
        handle_db_not_found_error login_entities kw (do
          (user, cache_needs_invalidation) ← transaction (login_tx req username password pair)
          when cache_needs_invalidation (publish_stream_event (user_invalidated_event user.user_id))
          pure (user, pair)))

  -- Reuse of a revoked token ends all sessions of its user.
  unfoldable pub revoke_sessions : Uuid → M (Uuid × Bool)
  revoke_sessions user_id = do
    Queries.revoke_all_user_access_tokens user_id
    Queries.revoke_all_user_refresh_tokens user_id
    pure (user_id, true)

  unfoldable pub reissue : String → Uuid → TokenPair → M (Uuid × Bool)
  reissue refresh_hash user_id pair = do
    Queries.revoke_refresh_token refresh_hash
    issue_token_pair user_id pair
    pure (user_id, false)

  -- The branches of the transaction of `refresh`, on the row found: the user, and whether the token
  -- was used before.
  unfoldable pub rotate : Timestamp → String → TokenPair → Token → M (Uuid × Bool)
  rotate now refresh_hash pair t =
      if t.is_revoked
      then revoke_sessions t.user_id
      else if is_expired now t
      then raise (service token_expired)
      else reissue refresh_hash t.user_id pair

  unfoldable pub refresh_tx : Timestamp → String → TokenPair → M (Uuid × Bool)
  refresh_tx now refresh_hash pair = do
    token_record ← Queries.get_refresh_token refresh_hash
    rotate now refresh_hash pair token_record

  unfoldable pub announce : String → Uuid → Bool → M (Unit {0})
  announce refresh_hash user_id is_reused =
      if is_reused
      then publish_stream_event (user_invalidated_event user_id) >> raise (service token_revoked)
      else publish_stream_event (token_revoked_event refresh_hash)

  unfoldable pub refresh : AuthConfig → Request → String → M TokenPair
  refresh settings req raw_refresh_token =
      let refresh_hash = x.hash_token raw_refresh_token in
      let pair : TokenPair = generate_token_pair settings req in
      let kw : Kwargs = ("raw_refresh_token", Errors.text raw_refresh_token) ∷ [] in
      handle_db_constraint_error no_overrides kw (
        handle_db_not_found_error refresh_entities kw (do
          (user_id, is_reused) ← transaction (refresh_tx req.current_ts refresh_hash pair)
          announce refresh_hash user_id is_reused
          pure pair))

  -- `hash_token(raw) if raw else None`; a digest is never empty, so it is tested as it stands here.
  abbrev pub hash_of_given : Option String → Option String
  hash_of_given none = none
  hash_of_given (some raw) = if str_eq raw "" then none else some (x.hash_token raw)

  unfoldable pub for_given : Option String → (String → M (Unit {0})) → M (Unit {0})
  unfolding pure
  for_given none f = pure tt
  for_given (some h) f = f h

  -- `self._cache.evict`
  unfoldable pub evict_local : String → M (Unit {0})
  evict_local h w = (ok tt, record w { cache = Cache.evict h w.cache })

  unfoldable pub logout_tx : String → Option String → M (Unit {0})
  logout_tx refresh_hash access_hash = do
    Queries.revoke_refresh_token refresh_hash
    for_given access_hash Queries.revoke_access_token

  unfoldable pub logout_hashes : String → Option String → M (Unit {0})
  logout_hashes refresh_hash access_hash = do
    transaction (logout_tx refresh_hash access_hash)
    for_given access_hash evict_local
    publish_stream_event (token_revoked_event refresh_hash)
    for_given access_hash (λ h. publish_stream_event (token_revoked_event h))

  unfoldable pub logout : String → Option String → M (Unit {0})
  logout raw_refresh_token raw_access_token =
      handle_db_not_found_error logout_entities []
        (logout_hashes (x.hash_token raw_refresh_token) (hash_of_given raw_access_token))
