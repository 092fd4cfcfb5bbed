-- ===== src/Api/Dependencies.antt =====
-- Token validation, src/api/dependencies.py: the worker's cache first, then the tables.
use messenger_backend.Base.{
  String, Bool, true, false, Option, none, some, not, ◌&&◌, str_eq, if◌then◌else◌,
}
use messenger_backend.Database.Models.{User, is_expired}
use messenger_backend.Database.Queries
use messenger_backend.Effects.{
  Exn, http, not_found, Result, err, ok, World, M, pure, raise, gets, handle, ◌>>=◌, ◌>>◌, raise_if,
  connection,
}
use messenger_backend.External.{External}
use messenger_backend.Services.Cache
use messenger_backend.Services.Request.{Request}

abbrev pub unauthorized : String → Exn
unauthorized detail = http 401 detail

abbrev pub deactivated_error : Exn
deactivated_error = unauthorized "User account is deactivated."

-- `except NotFoundError`
abbrev pub on_missing : {A : Type 0} → Exn → Result A
on_missing (not_found _ _) = err (unauthorized "Invalid or nonexistent access token.")
on_missing e = err e

-- The bearer token, if there is one.
abbrev pub get_raw_access_token : Option String → Option String
get_raw_access_token credentials = credentials

-- `user.deactivated and not allow_deactivated`
abbrev pub is_barred : Bool → User → Bool
is_barred allow_deactivated user = user.deactivated && not allow_deactivated

-- The slow path: the row, its flags, its user.
unfoldable pub validate_token : Request → String → Bool → M User
validate_token req token_hash allow_deactivated = do
  token_record ← Queries.get_access_token token_hash
  raise_if token_record.is_revoked (unauthorized "Access token has been revoked.")
  raise_if (is_expired req.current_ts token_record) (unauthorized "Access token has expired.")
  user ← Queries.get_user_by_id token_record.user_id
  raise_if (is_barred allow_deactivated user) deactivated_error
  pure user

module _ ⦃x : External⦄ where
  unfoldable pub set_cache : String → User → M (Unit {0})
  set_cache token_hash user w = (ok tt, record w { cache = Cache.set token_hash user w.cache })

  -- A hit is returned as it was cached; a miss is looked up, and the user is cached.
  unfoldable pub from_cache : Request → String → Bool → Option User → M User
  unfolding pure raise
  from_cache req token_hash allow_deactivated (some user) =
      if is_barred allow_deactivated user then raise deactivated_error else pure user
  from_cache req token_hash allow_deactivated none = do
    user ← handle on_missing (connection (validate_token req token_hash allow_deactivated))
    set_cache token_hash user
    pure user

  unfoldable pub authenticate_token : Request → String → Bool → M User
  authenticate_token req raw_token allow_deactivated = do
    cached_user ← gets (λ w. Cache.lookup (x.hash_token raw_token) w.cache)
    from_cache req (x.hash_token raw_token) allow_deactivated cached_user

  -- Both `get_current_user` and `get_current_user_allow_deactivated`.
  unfoldable pub get_current_user : Request → Option String → Bool → M User
  unfolding raise
  get_current_user req none allow_deactivated =
      raise (unauthorized "Missing Bearer authentication token.")
  get_current_user req (some credentials) allow_deactivated =
      if str_eq credentials ""
      then raise (unauthorized "Missing Bearer authentication token.")
      else authenticate_token req credentials allow_deactivated

  -- A WebSocket is closed where its token is missing or refused with an HTTPException, which is
  -- raised again; the Boolean says whether it was closed.
  abbrev pub close_refused : Result User × World → (Result User × Bool) × World
  close_refused (err (http code detail), w) = ((err (http code detail), true), w)
  close_refused (r, w) = ((r, false), w)

  abbrev pub missing_token : Exn
  missing_token = unauthorized "Missing WebSocket authentication token query parameter."

  unfoldable pub get_current_user_ws :
      Request → Option String → World → (Result User × Bool) × World
  get_current_user_ws req none w = ((err missing_token, true), w)
  get_current_user_ws req (some token) w =
      if str_eq token ""
      then ((err missing_token, true), w)
      else close_refused (authenticate_token req token false w)
