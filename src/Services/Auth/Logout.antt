-- ===== src/Services/Auth/Logout.antt =====
-- `AuthService.logout` of src/services/auth.py: what it revokes, and when it revokes nothing.
use messenger_backend.Base.{
  String, ◌≡◌, false, Bool, some, List, [], ◌∷◌, ◌++◌, ◌&&◌, arith, any, update, str_eq,
  if◌then◌else◌, count_is_zero,
}
use messenger_backend.Database.Models.{Token}
use messenger_backend.Database.Sql.{of_token, revoke, execute}
use messenger_backend.Database.Queries
use messenger_backend.Database.Queries.{run}
use messenger_backend.Effects.{World, ok, effects}
use messenger_backend.External.{External}
use messenger_backend.Redis.Events.{token_revoked_event, to_dict}
use messenger_backend.Services.Auth.{for_given, evict_local, logout_tx, logout_hashes, logout}
use messenger_backend.Services.Cache
use messenger_backend.Services.Translation.{handle_db_not_found_error}

abbrev pub stored : String → List Token → Bool
stored h l = any (of_token h) l

-- A worker after a logout that revoked both tokens, by their digests.
abbrev pub logged_out : String → String → World → World
logged_out refresh_hash access_hash w = record w {
  db = record w.db {
    refresh_tokens = update (of_token refresh_hash) revoke w.db.refresh_tokens;
    access_tokens = update (of_token access_hash) revoke w.db.access_tokens;
  };
  cache = Cache.evict access_hash w.cache;
  stream =
      (w.stream ++ to_dict (token_revoked_event refresh_hash) ∷ [])
      ++ to_dict (token_revoked_event access_hash) ∷ [];
}

module _ ⦃x : External⦄ (raw access : String) (w : World) where
  -- With Redis up, a logout with an access token never fails. It revokes both tokens, drops the
  -- access token from the worker's cache and announces both, if both are stored; if either is not,
  -- it changes nothing at all.
  pub logout_outcome :
      str_eq access "" ≡ false
      → w.faults ≡ []
      → logout raw (some access) w ≡ (
        ok tt,
        (if stored (x.hash_token raw) w.db.refresh_tokens
              && stored (x.hash_token access) w.db.access_tokens
            then logged_out (x.hash_token raw) (x.hash_token access) w
            else w),
      )
  unfolding logout logout_hashes logout_tx for_given evict_local handle_db_not_found_error
      Queries.revoke_refresh_token Queries.revoke_access_token run execute effects
  logout_outcome given up = ground (
    arith,
    count_is_zero (of_token (x.hash_token raw)) w.db.refresh_tokens,
    count_is_zero (of_token (x.hash_token access)) w.db.access_tokens,
  )
