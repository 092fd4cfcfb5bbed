-- ===== src/Tests/Friends.antt =====
-- Witnesses on friendships, on the members of groups and on the tables.
use messenger_backend.Base.{◌≡◌, refl, some, [], ◌∷◌}
use messenger_backend.Api.Creators.{serve-CreatorsJoin}
use messenger_backend.Api.Routes
use messenger_backend.Api.Routes.{serve}
use messenger_backend.Services.Group.Creators.{CreatorsJoin}
use messenger_backend.Services.User.Friendships.{
  send, accept, remove, Calls, perform_all, specified_all, friendships_refine,
}
use messenger_backend.Services.User.Friendships.Rows.{relation}
use messenger_backend.Tests.Sample.{sample, settings, request, tables, world, tables-IsConsistent}

-- A request that crosses another, its acceptance, a removal by the other side and one that is late.
abbrev calls : Calls
calls =
    (10, send 1 3) ∷ (11, accept 1 3) ∷ (12, remove 3 1) ∷ (13, remove 1 3) ∷ (14, send 2 2) ∷ []

friendships_refine_example :
    ((perform_all calls world).0 ≡ (specified_all calls (relation tables)).0)
    × (relation (perform_all calls world).1.db ≡ (specified_all calls (relation tables)).1)
friendships_refine_example =
    friendships_refine calls world ((refl, refl), (tt, (tt, (tt, ((refl, refl), tt)))))

serve-CreatorsJoin_example :
    CreatorsJoin
      (serve settings
        (record { outside = request; credentials = some "a1"; route = Routes.remove_member 5 1 }
          ∷ [])
        world).db
serve-CreatorsJoin_example =
    serve-CreatorsJoin settings
      (record { outside = request; credentials = some "a1"; route = Routes.remove_member 5 1 } ∷ [])
      world (record { consistent = tables-IsConsistent; joined = (refl, tt) })
