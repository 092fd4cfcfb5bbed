-- ===== src/Api/Tokens.antt =====
-- What `authenticate_token` of src/api/dependencies.py accepts, and how long.
use messenger_backend.Base.{
  String, ◌≡◌, ◌⊎◌, eq_iff, ◌↔◌, refl, false, Bool, none, some, ◌∷◌, arith, Option-cases, inl, inr,
}
use messenger_backend.Database.Models.{User, Token, is_expired}
use messenger_backend.Database.Fetch
use messenger_backend.Database.Sql.{execute, insert, violated}
use messenger_backend.Database.Queries
use messenger_backend.Database.Queries.{run, found}
use messenger_backend.Effects.{World, ok, effects}
use messenger_backend.External.{External, entry}
use messenger_backend.Services.Cache
use messenger_backend.Services.Auth.{issue_token_pair, register_tx, register, new_user, access_row}
use messenger_backend.Services.Request.{Request, AuthConfig, TokenPair, generate_token_pair}
use messenger_backend.Services.Translation.{handle_db_constraint_error, handle_db_not_found_error}
use messenger_backend.Services.User.{deactivate_account, delete_account}
use messenger_backend.Api.Dependencies.{
  is_barred, validate_token, set_cache, from_cache, authenticate_token,
}

-- The tables vouch for the token at this moment.
pub record Vouches (req : Request) (h : String) (allow : Bool) (w : World) (u : User) : Type 0 where
  pub token : Token
  pub stored : Fetch.access_token h w.db ≡ some token
  pub not_revoked : token.is_revoked ≡ false
  pub not_expired : is_expired req.current_ts token ≡ false
  pub owner : Fetch.user_by_id token.user_id w.db ≡ some u
  pub admitted : is_barred allow u ≡ false

module _ ⦃x : External⦄ (req : Request) (raw : String) (allow : Bool) (w : World) where
  abbrev pub cached_after : User → World
  cached_after u = record w { cache = Cache.set (x.hash_token raw) u w.cache }

  accepted :
      (u : User)
      → entry (x.hash_token raw) w.cache ≡ none
      → Vouches req (x.hash_token raw) allow w u
      → authenticate_token req raw allow w ≡ (ok u, cached_after u)
  unfolding authenticate_token from_cache validate_token set_cache Queries.get_access_token
      Queries.get_user_by_id found effects
  accepted u miss v = ground arith

  vouched :
      (u : User) (w' : World)
      → entry (x.hash_token raw) w.cache ≡ none
      → authenticate_token req raw allow w ≡ (ok u, w')
      → Vouches req (x.hash_token raw) allow w u
  unfolding authenticate_token from_cache validate_token set_cache Queries.get_access_token
      Queries.get_user_by_id found effects
  vouched u w' miss h = elim (Option-cases (Fetch.access_token (x.hash_token raw) w.db)) [
    | inl absent ↦ ground arith
    | inr (t, e) ↦ record {
      token = t;
      stored = e;
      not_revoked = ground arith;
      not_expired = ground arith;
      owner = ground arith;
      admitted = ground arith;
    }
  ]

  -- On a miss of the worker's cache, `authenticate_token` returns a user exactly when the tables
  -- vouch for the token: its row is stored, neither revoked nor expired, and it belongs to that user,
  -- who is not deactivated or may be.
  pub authenticate_miss :
      (u : User)
      → entry (x.hash_token raw) w.cache ≡ none
      → ((w' : World) × (authenticate_token req raw allow w ≡ (ok u, w')))
        ↔ Vouches req (x.hash_token raw) allow w u
  authenticate_miss u miss =
      ((λ h. vouched u h.0 miss h.1), (λ v. (cached_after u, accepted u miss v)))

  -- On a hit, whatever the tables say, the cached user is returned if not barred.
  hit :
      (u : User)
      → entry (x.hash_token raw) w.cache ≡ some u
      → is_barred allow u ≡ false
      → authenticate_token req raw allow w ≡ (ok u, w)
  unfolding authenticate_token from_cache effects
  hit u e free = ground arith

module _ ⦃x : External⦄ (settings : AuthConfig) (req : Request) (name password : String)
    (w : World) where
  registered :
      {u : User} {pair : TokenPair} {w' : World}
      → register settings req name password w ≡ (ok (u, pair), w')
      → (pair ≡ generate_token_pair settings req)
        × (w'.cache ≡ w.cache)
        × (u ≡ new_user req name password)
        × (w'.db.users ≡ u ∷ w.db.users)
        × (w'.db.access_tokens ≡ access_row u.user_id pair ∷ w.db.access_tokens)
  unfolding register register_tx issue_token_pair handle_db_constraint_error Queries.create_user
      Queries.create_access_token Queries.create_refresh_token run execute insert violated effects
  registered h = ground arith

  tokens_work :
      {u : User} {pair : TokenPair} {w' : World} (later : Request) (v : World)
      → register settings req name password w ≡ (ok (u, pair), w')
      → v.db ≡ w'.db
      → entry (x.hash_token pair.access_token) v.cache ≡ none
      → is_expired later.current_ts (access_row u.user_id pair) ≡ false
      → Vouches later (x.hash_token pair.access_token) false v u
  tokens_work {u} {pair} later v h same miss early =
      let (p, c, n, us, ts) = registered h in
      record {
        token = access_row u.user_id pair;
        stored =
            rw
              (
                same,
                ts,
                (eq_iff (x.hash_token pair.access_token) (x.hash_token pair.access_token)).1 refl,
              )
              refl;
        not_revoked = refl;
        not_expired = early;
        owner = rw (same, us) (ground arith);
        admitted = rw n refl;
      }

  -- The access token that a registration returns is good until it expires: `authenticate_token`
  -- returns the new user for it, to any worker that has the tables of that moment and has not cached
  -- the token.
  pub register_authenticates :
      {u : User} {pair : TokenPair} {w' : World} (later : Request) (v : World)
      → register settings req name password w ≡ (ok (u, pair), w')
      → v.db ≡ w'.db
      → entry (x.hash_token pair.access_token) v.cache ≡ none
      → is_expired later.current_ts (access_row u.user_id pair) ≡ false
      → authenticate_token later pair.access_token false v
        ≡ (ok u, cached_after later pair.access_token false v u)
  register_authenticates {u} {pair} later v h same miss early =
      accepted later pair.access_token false v u miss (tokens_work later v h same miss early)

module _ ⦃x : External⦄ (req : Request) (raw : String) (w : World) (u : User) where
  deactivation_stream :
      {w' : World}
      → deactivate_account u.user_id w ≡ (ok tt, w')
      → (w'.stream ≡ w.stream) × (w'.cache ≡ w.cache)
  unfolding deactivate_account handle_db_not_found_error Queries.deactivate_user run execute
      violated effects
  deactivation_stream h = ground arith

  deletion_stream :
      {w' : World}
      → delete_account u.user_id w ≡ (ok tt, w')
      → (w'.stream ≡ w.stream) × (w'.cache ≡ w.cache)
  unfolding delete_account handle_db_not_found_error Queries.delete_user run execute violated
      effects
  deletion_stream h = ground arith

  -- Neither the deactivation nor the deletion of an account publishes an event, so a worker that has
  -- the token of an active user cached goes on accepting it, whatever the tables say by then.
  pub cached_token_survives :
      {w' : World}
      → entry (x.hash_token raw) w.cache ≡ some u
      → u.deactivated ≡ false
      → (deactivate_account u.user_id w ≡ (ok tt, w')) ⊎ (delete_account u.user_id w ≡ (ok tt, w'))
      → (w'.stream ≡ w.stream) × (authenticate_token req raw false w' ≡ (ok u, w'))
  cached_token_survives {w'} cached active (inl h) =
      let (s, c) = deactivation_stream h in
      (s, hit req raw false w' u (rw c cached) (rw active refl))
  cached_token_survives {w'} cached active (inr h) =
      let (s, c) = deletion_stream h in (s, hit req raw false w' u (rw c cached) (rw active refl))
