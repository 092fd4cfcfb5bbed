-- ===== src/Tests/Auth.antt =====
-- Witnesses on authentication and accounts.
use messenger_backend.Base.{
  ◌≡◌, ◌≢◌, ◌↔◌, ◌⊎◌, any, refl, true, false, some, [], ◌∷◌, All, Elem, String,
}
use messenger_backend.Database.Models.{Token, User}
use messenger_backend.Database.Errors
use messenger_backend.Database.Fetch
use messenger_backend.Database.Sql.{of_owner, of_user}
use messenger_backend.Database.Sql.{execute, violated, insert}
use messenger_backend.Database.Tables.{Db, IsConsistent, has_user, same_id}
use messenger_backend.Database.Queries
use messenger_backend.Database.Queries.{run, found}
use messenger_backend.Effects.{World, ok, err, effects, service, database_error}
use messenger_backend.External.{External, matches}
use messenger_backend.Redis.Events.{user_invalidated_event, token_revoked_event, to_dict}
use messenger_backend.Services.Auth.{
  register, register_tx, login, login_tx, refresh, refresh_tx, rotate, reissue, announce,
  issue_token_pair, logout, verdict, when,
}
use messenger_backend.Services.Auth.Login.{login_matches, login_reactivates, login_refused}
use messenger_backend.Services.Auth.Logout.{logged_out, logout_outcome}
use messenger_backend.Services.Auth.Replay.Branches.{end_sessions, rotated}
use messenger_backend.Services.Auth.Replay.{
  refresh_replay, refresh_succeeds, refresh_reused, refresh_refused,
}
use messenger_backend.Services.Cache.{handle_invalidation_event}
use messenger_backend.Services.Cache.Invalidation.{invalidation_drops}
use messenger_backend.Services.Errors.{
  token_revoked, user_not_found, invalid_credentials, token_expired,
}
use messenger_backend.Services.Request.{TokenPair, generate_token_pair}
use messenger_backend.Services.Translation.{handle_db_constraint_error, handle_db_not_found_error}
use messenger_backend.Services.User.{delete_account}
use messenger_backend.Services.User.Accounts.{IsForgotten, delete_account_outcome}
use messenger_backend.Api.Dependencies.{authenticate_token}
use messenger_backend.Api.Integrity.{serve-IsConsistent}
use messenger_backend.Api.Routes
use messenger_backend.Api.Routes.{HttpRequest, serve}
use messenger_backend.Api.Tokens.{Vouches, authenticate_miss, register_authenticates, cached_after}
use messenger_backend.Tests.Sample.{
  sample, settings, request, later, user, token, alice, carol, tables, world, tables-IsConsistent,
}

-- The pair that the sample request is given.
abbrev pair : TokenPair
pair = generate_token_pair settings request

-- A rotation of "r1".
rotates : refresh settings request "r1" world ≡ (ok pair, (refresh settings request "r1" world).1)
unfolding refresh refresh_tx rotate reissue issue_token_pair announce handle_db_constraint_error
    handle_db_not_found_error Queries.get_refresh_token Queries.revoke_refresh_token
    Queries.create_access_token Queries.create_refresh_token run execute insert violated found
    effects
rotates = refl

abbrev rotated_world : World
rotated_world = (refresh settings request "r1" world).1

same_faults : rotated_world.faults ≡ []
unfolding refresh refresh_tx rotate reissue issue_token_pair announce handle_db_constraint_error
    handle_db_not_found_error Queries.get_refresh_token Queries.revoke_refresh_token
    Queries.create_access_token Queries.create_refresh_token run execute insert violated found
    effects
same_faults = refl

refresh_replay_example :
    (t : Token) × (Fetch.refresh_token "r1" tables ≡ some t)
    × ((refresh settings later "r1" rotated_world).0 ≡ err (service token_revoked))
    × All
        (λ a. of_owner t.user_id a ≡ true → a.is_revoked ≡ true)
        (refresh settings later "r1" rotated_world).1.db.access_tokens
    × All
        (λ a. of_owner t.user_id a ≡ true → a.is_revoked ≡ true)
        (refresh settings later "r1" rotated_world).1.db.refresh_tokens
refresh_replay_example =
    refresh_replay settings request later "r1" world rotated_world rotates refl same_faults

refresh_succeeds_example : refresh settings request "r1" world ≡ (
  ok pair,
  record world {
    db = rotated settings request "r1" world (token "r1" 1 false 400) tables;
    stream = to_dict (token_revoked_event "r1") ∷ [];
  },
)
refresh_succeeds_example =
    refresh_succeeds settings request "r1" world (token "r1" 1 false 400) tables-IsConsistent refl
      refl refl refl refl refl

refresh_reused_example : refresh settings request "r0" world ≡ (
  err (service token_revoked),
  record world { db = end_sessions 1 tables; stream = to_dict (user_invalidated_event 1) ∷ [] },
)
refresh_reused_example =
    refresh_reused settings request "r0" world (token "r0" 1 true 400) refl refl refl

carol_enters :
    login settings request "carol" "secret" world
    ≡ (ok (carol, pair), (login settings request "carol" "secret" world).1)
unfolding login login_tx verdict when issue_token_pair handle_db_constraint_error
    handle_db_not_found_error Queries.get_user_by_username Queries.reactivate_user
    Queries.update_user_password Queries.create_access_token Queries.create_refresh_token run
    execute insert violated found effects
carol_enters = refl

login_matches_example :
    (Fetch.user_by_username "carol" tables ≡ some carol)
    × (External.verify sample "secret" "secret" ≡ matches)
login_matches_example = login_matches settings request "carol" "secret" world carol_enters

login_reactivates_example :
    (carol ≡ carol)
    × (carol.deactivated ≡ true)
    × All
        (λ r. of_user 3 r ≡ true → r.deactivated ≡ false)
        (login settings request "carol" "secret" world).1.db.users
login_reactivates_example =
    login_reactivates settings request "carol" "secret" world carol refl refl carol_enters

login_refused_example :
    login settings request "carol" "guess" world ≡ (err (service invalid_credentials), world)
login_refused_example = login_refused settings request "carol" "guess" world refl

refresh_refused_example : refresh settings request "rx" world ≡ (err (service token_expired), world)
refresh_refused_example = refresh_refused settings request "rx" world refl

logout_outcome_example : logout "r1" (some "a1") world ≡ (ok tt, logged_out "r1" "a1" world)
logout_outcome_example = logout_outcome "r1" "a1" world refl refl

delete_account_outcome_example :
    ((has_user world.db.users 1 ≡ false)
      × (delete_account 1 world ≡ (err (service (user_not_found (Errors.uuid 1))), world)))
    ⊎ (((has_user world.db.users 1 ≡ true)
          × (any (λ g. same_id g.created_by 1) world.db.groups ≡ true)
          × (delete_account 1 world ≡ (err database_error, world)))
        ⊎ ((has_user world.db.users 1 ≡ true)
            × (any (λ g. same_id g.created_by 1) world.db.groups ≡ false)
            × ((new : Db) × (delete_account 1 world ≡ (ok tt, record world { db = new }))
                × IsForgotten 1 world.db new)))
delete_account_outcome_example = delete_account_outcome 1 world

invalidation_drops_example :
    Elem {A = String × User}
      ("a1", alice)
      (handle_invalidation_event (to_dict (token_revoked_event "b1")) (("a1", alice) ∷ []))
    ↔ (Elem {A = String × User} ("a1", alice) (("a1", alice) ∷ []) × (◌≢◌ {A = String} "a1" "b1"))
invalidation_drops_example =
    invalidation_drops (token_revoked_event "b1") ("a1", alice) (("a1", alice) ∷ []) refl

authenticate_miss_example :
    ((w' : World) × (authenticate_token request "a1" false world ≡ (ok alice, w')))
    ↔ Vouches request "a1" false world alice
authenticate_miss_example = authenticate_miss request "a1" false world alice refl

serve-IsConsistent_example :
    IsConsistent
      (serve settings
        (record { outside = request; credentials = some "a1"; route = Routes.delete_my_account }
          ∷ [])
        world).db
serve-IsConsistent_example =
    serve-IsConsistent settings
      (record { outside = request; credentials = some "a1"; route = Routes.delete_my_account } ∷ [])
      world tables-IsConsistent

registers : register settings request "dave" "long secret" world ≡ (
  ok (record (user 7 "dave" false) { password_hash = "long secret"; created_at = 10 }, pair),
  (register settings request "dave" "long secret" world).1,
)
unfolding register register_tx issue_token_pair handle_db_constraint_error Queries.create_user
    Queries.create_access_token Queries.create_refresh_token run execute insert violated effects
registers = refl

abbrev dave : User
dave = record (user 7 "dave" false) { password_hash = "long secret"; created_at = 10 }

abbrev elsewhere : World
elsewhere = record world { db = (register settings request "dave" "long secret" world).1.db }

register_authenticates_example :
    authenticate_token later "a2" false elsewhere
    ≡ (ok dave, cached_after later "a2" false elsewhere dave)
register_authenticates_example =
    register_authenticates settings request "dave" "long secret" world later elsewhere registers
      refl refl refl
