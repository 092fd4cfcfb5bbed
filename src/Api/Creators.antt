-- ===== src/Api/Creators.antt =====
-- The members of groups under every sequence of requests to src/api.
use messenger_backend.Base.{List}
use messenger_backend.Effects.{World}
use messenger_backend.External.{External}
use messenger_backend.Services.Group.Creators.{
  CreatorsJoin, CreatorsJoin-IsKept, create_group-CreatorsJoin, remove_member-CreatorsJoin,
}
use messenger_backend.Services.Request.{AuthConfig}
use messenger_backend.Api.Integrity.{serve-Keeps}
use messenger_backend.Api.Routes.{HttpRequest, serve}

-- From consistent tables in which every group has a creator, who is a member of it, any sequence of
-- requests, whether they succeed or fail, leads to such tables.
pub serve-CreatorsJoin :
    ⦃x : External⦄ (settings : AuthConfig) (rs : List HttpRequest) (w : World)
    → CreatorsJoin w.db
    → CreatorsJoin (serve settings rs w).db
serve-CreatorsJoin settings rs w h =
    serve-Keeps CreatorsJoin-IsKept create_group-CreatorsJoin remove_member-CreatorsJoin settings rs
      w h
