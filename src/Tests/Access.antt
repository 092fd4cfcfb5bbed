-- ===== src/Tests/Access.antt =====
-- Witnesses on who is let in, and on cached tokens.
use messenger_backend.Base.{ℕ, ◌≡◌, ◌≢◌, refl, true, false, some, none, [], ◌∷◌, inl}
use messenger_backend.Database.Queries
use messenger_backend.Database.Queries.{run, found}
use messenger_backend.Database.Sql.{execute}
use messenger_backend.Effects.{World, ok, effects}
use messenger_backend.Redis.Events.{user_invalidated_event, to_dict}
use messenger_backend.Services.Auth.{refresh}
use messenger_backend.Services.Cache.{evict_user, handle_invalidation_event}
use messenger_backend.Services.Translation.{handle_db_not_found_error}
use messenger_backend.Services.User.{deactivate_account}
use messenger_backend.Api.Dependencies.{authenticate_token, from_cache}
use messenger_backend.Api.Lockout.{reuse_locks_out}
use messenger_backend.Api.Protected.{unauthenticated_refused}
use messenger_backend.Api.Routes
use messenger_backend.Api.Routes.{respond}
use messenger_backend.Api.Tokens.{cached_token_survives}
use messenger_backend.Tests.Sample.{sample, settings, request, later, token, alice, bob, world}

unauthenticated_refused_example :
    respond settings
      (record { outside = request; credentials = some ""; route = Routes.delete_my_account })
      world
    ≡ (record { status = 401; body = none }, world)
unauthenticated_refused_example =
    unauthenticated_refused settings request world (some "") Routes.delete_my_account refl refl

-- A worker that has the token of alice cached.
abbrev cached : World
cached = record world { cache = ("a1", alice) ∷ [] }

deactivates : deactivate_account 1 cached ≡ (ok tt, (deactivate_account 1 cached).1)
unfolding deactivate_account handle_db_not_found_error Queries.deactivate_user run execute effects
deactivates = refl

cached_token_survives_example :
    ((deactivate_account 1 cached).1.stream ≡ [])
    × (authenticate_token request "a1" false (deactivate_account 1 cached).1
        ≡ (ok alice, (deactivate_account 1 cached).1))
cached_token_survives_example =
    cached_token_survives request "a1" cached alice refl refl (inl deactivates)

-- A worker that had both users cached, after the reuse of alice's revoked token.
abbrev told : World
told = record world {
  db = (refresh settings request "r0" world).1.db;
  cache =
      handle_invalidation_event (to_dict (user_invalidated_event 1))
        (("a1", alice) ∷ ("b1", bob) ∷ []);
}

lets_bob_in : authenticate_token later "b1" false told ≡ (ok bob, told)
unfolding authenticate_token from_cache handle_invalidation_event evict_user effects
lets_bob_in = refl

reuse_locks_out_example : ◌≢◌ {A = ℕ} 2 1
reuse_locks_out_example =
    reuse_locks_out settings request "r0" world later "b1" false told
      (("a1", alice) ∷ ("b1", bob) ∷ []) (token "r0" 1 true 400) refl refl refl refl refl
      lets_bob_in
