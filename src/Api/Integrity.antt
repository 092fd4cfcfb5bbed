-- ===== src/Api/Integrity.antt =====
-- The integrity of the tables under every sequence of requests.
use messenger_backend.Base.{String, Bool, Option, none, some, List, [], ◌∷◌, str_eq}
use messenger_backend.Database.Models
use messenger_backend.Database.Models.{Uuid}
use messenger_backend.Services.Group
use messenger_backend.Database.Queries
use messenger_backend.Database.Tables.{Db, IsConsistent}
use messenger_backend.Effects.{World, M}
use messenger_backend.Effects.Keeps.{Keeps, Keeps-if, Keeps-raise}
use messenger_backend.External.{External}
use messenger_backend.Services.Consistency.{
  local_rules, register-Keeps, login-Keeps, refresh-Keeps, logout-Keeps, deactivate_account-Keeps,
  reactivate_account-Keeps, delete_account-Keeps, send_friend_request-Keeps,
  accept_friend_request-Keeps, remove_or_decline_friendship-Keeps, create_group-Keeps, IsKept,
  IsConsistent-IsKept, add_member-Keeps, remove_member-Keeps, delete_group-Keeps,
  send_direct_message-Keeps, send_group_message-Keeps, get_by_username-Keeps, get_by_id-Keeps,
  get_friends-Keeps, get_pending-Keeps, list_group_members-Keeps, list_user_groups-Keeps,
  get_group_details-Keeps, get_friendship_status-Keeps, get_dm_history-Keeps,
  get_group_history-Keeps,
}
use messenger_backend.Api.Routers.Auth as AuthRoutes
use messenger_backend.Api.Routers.User as UserRoutes
use messenger_backend.Api.Routers.Group as GroupRoutes
use messenger_backend.Api.Routers.Messaging as MessagingRoutes
use messenger_backend.Services.Request.{Request, AuthConfig}
use messenger_backend.Api.Dependencies.{
  is_barred, validate_token, set_cache, from_cache, authenticate_token, get_current_user,
}
use messenger_backend.Api.Routes.{
  Route, Body, reply, empty, validate, as_current_user, call, HttpRequest, serve,
}

module _ {P : Db → Type 0} where
  validate_token-Keeps : (r : Request) (h : String) (b : Bool) → Keeps P (validate_token r h b)
  unfolding validate_token Queries.get_access_token Queries.get_user_by_id
  validate_token-Keeps r h b = search local_rules depth 14

  reply-Keeps : {A : Type 0} (b : A → Body) {m : M A} → Keeps P m → Keeps P (reply b m)
  unfolding reply
  reply-Keeps b k = search local_rules

  empty-Keeps : {m : M (Unit {0})} → Keeps P m → Keeps P (empty m)
  unfolding empty
  empty-Keeps k = search local_rules

  validate-Keeps : (r : Route) → Keeps P (validate r)
  unfolding validate
  validate-Keeps r = search local_rules

module _ {P : Db → Type 0} ⦃x : External⦄ where
  set_cache-Keeps : (h : String) (u : Models.User) → Keeps P (set_cache h u)
  unfolding set_cache
  set_cache-Keeps h u = record { at = λ w k. k }

  from_cache-Keeps :
      (r : Request) (h : String) (b : Bool) (o : Option Models.User) → Keeps P (from_cache r h b o)
  unfolding from_cache
  from_cache-Keeps r h b (some u) =
      Keeps-if (is_barred b u) (search local_rules) (search local_rules)
  from_cache-Keeps r h b none = search (local_rules, validate_token-Keeps, set_cache-Keeps) depth 8

  authenticate_token-Keeps :
      (r : Request) (raw : String) (b : Bool) → Keeps P (authenticate_token r raw b)
  unfolding authenticate_token
  authenticate_token-Keeps r raw b = search (local_rules, from_cache-Keeps)

  pub get_current_user-Keeps :
      (r : Request) (c : Option String) (b : Bool) → Keeps P (get_current_user r c b)
  unfolding get_current_user
  get_current_user-Keeps r none b = Keeps-raise _
  get_current_user-Keeps r (some c) b =
      Keeps-if (str_eq c "") (Keeps-raise _) (authenticate_token-Keeps r c b)

  module _ (r : Request) (c : Option String) where
    as_current_user-Keeps :
        (route : Route) (f : Models.User → M Body)
        → ((u : Models.User) → Keeps P (f u))
        → Keeps P (as_current_user r c route f)
    unfolding as_current_user
    as_current_user-Keeps route f k =
        search (local_rules, get_current_user-Keeps, validate-Keeps, k)

ruleset service_rules = (
  local_rules, reply-Keeps, empty-Keeps, validate-Keeps, get_current_user-Keeps, register-Keeps,
  login-Keeps, refresh-Keeps, logout-Keeps, deactivate_account-Keeps, reactivate_account-Keeps,
  delete_account-Keeps, send_friend_request-Keeps, accept_friend_request-Keeps,
  remove_or_decline_friendship-Keeps, add_member-Keeps, delete_group-Keeps,
  send_direct_message-Keeps, send_group_message-Keeps, get_by_username-Keeps, get_by_id-Keeps,
  get_friends-Keeps, get_pending-Keeps, list_group_members-Keeps, list_user_groups-Keeps,
  get_group_details-Keeps, get_friendship_status-Keeps, get_dm_history-Keeps,
  get_group_history-Keeps, as_current_user-Keeps,
)

-- What the neutral statements and the two other service methods keep, every route keeps.
module _ ⦃x : External⦄ {P : Db → Type 0} (k : IsKept P)
    (creates : (r : Request) (u : Uuid) (name : String) → Keeps P (Group.create_group r u name))
    (removes : (a g u : Uuid) → Keeps P (Group.remove_member a g u)) (settings : AuthConfig) where
  call-Keeps : (r : Request) (c : Option String) (route : Route) → Keeps P (call settings r c route)
  unfolding call AuthRoutes.register AuthRoutes.login AuthRoutes.refresh AuthRoutes.logout
      AuthRoutes.get_me UserRoutes.get_my_profile UserRoutes.get_user_by_username
      UserRoutes.get_user_by_id UserRoutes.list_pending_requests UserRoutes.list_friends
      UserRoutes.deactivate_my_account UserRoutes.reactivate_my_account UserRoutes.delete_my_account
      UserRoutes.send_request UserRoutes.accept_request UserRoutes.get_status
      UserRoutes.remove_or_decline GroupRoutes.list_groups GroupRoutes.get_group
      GroupRoutes.list_group_members GroupRoutes.create_group GroupRoutes.delete_group
      GroupRoutes.add_member GroupRoutes.remove_member MessagingRoutes.send_direct_message
      MessagingRoutes.get_dm_history MessagingRoutes.send_group_message
      MessagingRoutes.get_group_history
  call-Keeps r c (Route.register p) = search service_rules
  call-Keeps r c _ = search service_rules

  pub serve-Keeps : (rs : List HttpRequest) (w : World) → P w.db → P (serve settings rs w).db
  unfolding serve
  serve-Keeps [] w h = h
  serve-Keeps (r ∷ rs) w h =
      serve-Keeps rs (call settings r.outside r.credentials r.route w).1
        ((call-Keeps r.outside r.credentials r.route).at w h)

module _ ⦃x : External⦄ (settings : AuthConfig) where
  -- From tables that satisfy the primary keys, the unique constraints and the foreign keys of the
  -- schema, any sequence of requests, whether they succeed or fail, leads to such tables.
  pub serve-IsConsistent :
      (rs : List HttpRequest) (w : World)
      → IsConsistent w.db
      → IsConsistent (serve settings rs w).db
  serve-IsConsistent rs w h =
      serve-Keeps IsConsistent-IsKept create_group-Keeps remove_member-Keeps settings rs w h
