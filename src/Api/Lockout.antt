-- ===== src/Api/Lockout.antt =====
-- Reuse detection from end to end: `AuthService.refresh`, the event that it publishes, and
-- `authenticate_token` of src/api/dependencies.py in a worker that has handled the event.
use messenger_backend.Base.{
  String, ◌≡◌, Bool, ◌≢◌, refl, true, some, [], arith, ==_iff, All, update_sets, All_at, find-Elem,
  find-holds, inl, inr, Option-cases,
}
use messenger_backend.Database.Models.{Uuid, User, Token}
use messenger_backend.Database.Fetch
use messenger_backend.Database.Sql.{of_user, of_token, of_owner, revoke}
use messenger_backend.Effects.{World, ok, effects}
use messenger_backend.External.{External, Entries, entry}
use messenger_backend.Redis.Events.{user_invalidated_event, to_dict}
use messenger_backend.Services.Auth.{refresh}
use messenger_backend.Services.Auth.Replay.{refresh_reused}
use messenger_backend.Services.Cache.{handle_invalidation_event}
use messenger_backend.Services.Cache.Invalidation.{entry-Elem, user_invalidated_drops}
use messenger_backend.Services.Request.{Request, AuthConfig}
use messenger_backend.Api.Dependencies.{authenticate_token, from_cache}
use messenger_backend.Api.Tokens.{authenticate_miss}

module _ ⦃x : External⦄ (req : Request) (raw : String) (allow : Bool) (w : World) where
  from_hit :
      {u v : User} {w' : World}
      → entry (x.hash_token raw) w.cache ≡ some v
      → authenticate_token req raw allow w ≡ (ok u, w')
      → u ≡ v
  unfolding authenticate_token from_cache effects
  from_hit e h = ground arith

  -- Where all access tokens of a user are revoked and none of that user is cached, no token
  -- authenticates as that user.
  locked_out :
      (i : Uuid) {u : User} {w' : World}
      → All (λ a. of_owner i a ≡ true → a.is_revoked ≡ true) w.db.access_tokens
      → ((k : String) (v : User) → entry k w.cache ≡ some v → v.user_id ≢ i)
      → authenticate_token req raw allow w ≡ (ok u, w')
      → u.user_id ≢ i
  locked_out i {u} {w'} revoked uncached h same =
      elim (Option-cases (entry (x.hash_token raw) w.cache)) [
        | inr (v, e) ↦ uncached (x.hash_token raw) v e (rw (from_hit e h) at same)
        | inl miss ↦
            let v = (authenticate_miss req raw allow w u miss).0 (w', h) in
            let owner = find-holds (of_user v.token.user_id) w.db.users v.owner in
            let flag =
              All_at _ w.db.access_tokens revoked
                (find-Elem (of_token (x.hash_token raw)) w.db.access_tokens v.stored) in
            ground (arith, flag, v.not_revoked, same, owner, ==_iff v.token.user_id i)
      ]

module _ ⦃x : External⦄ (settings : AuthConfig) (req : Request) (stolen : String) (w : World)
    (later : Request) (raw : String) (allow : Bool) (v : World) (c : Entries) where
  -- Reuse of a revoked refresh token ends the sessions of its user. After `refresh` was called with
  -- it, a worker that reads the tables of that moment, and whose cache has handled the event that the
  -- call published, authenticates no token as that user.
  pub reuse_locks_out :
      (t : Token) {u : User} {v' : World}
      → Fetch.refresh_token (x.hash_token stolen) w.db ≡ some t
      → t.is_revoked ≡ true
      → w.faults ≡ []
      → v.db ≡ (refresh settings req stolen w).1.db
      → v.cache ≡ handle_invalidation_event (to_dict (user_invalidated_event t.user_id)) c
      → authenticate_token later raw allow v ≡ (ok u, v')
      → u.user_id ≢ t.user_id
  reuse_locks_out t e revoked up same cached h =
      let ended = refresh_reused settings req stolen w t e revoked up in
      locked_out later raw allow v t.user_id
        (rw (same, ended)
          (update_sets (of_owner t.user_id) revoke _ (λ a. refl) w.db.access_tokens))
        (λ k u m.
          ((user_invalidated_drops t.user_id _ c).0 (
            entry-Elem k (handle_invalidation_event (to_dict (user_invalidated_event t.user_id)) c)
              (rw cached at m))).1)
        h
