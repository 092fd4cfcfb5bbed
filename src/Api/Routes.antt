-- ===== src/Api/Routes.antt =====
-- The routes of src/api/routers, the status codes of the replies, and the exception handlers of
-- src/main.py. A route authenticates, its request is validated, and its handler is called.
use messenger_backend.Base.{
  ℕ, String, Bool, true, false, Option, none, some, List, [], ◌∷◌, not, ◌&&◌, leb,
}
use messenger_backend.Database.Models.{Uuid, Timestamp}
use messenger_backend.Database.Models
use messenger_backend.Effects.{
  Exn, integrity, constraint_violation, not_found, database_error, redis_error, service, http,
  argon2_error, Result, ok, err, World, M, pure, ◌>>=◌, ◌>>◌, raise_if,
}
use messenger_backend.External.{External}
use messenger_backend.Services.Errors.{status_code}
use messenger_backend.Services.Request.{Request, AuthConfig}
use messenger_backend.Api.Dependencies.{get_current_user, get_raw_access_token}
use messenger_backend.Api.Routers.Auth
use messenger_backend.Api.Routers.User
use messenger_backend.Api.Routers.Group
use messenger_backend.Api.Routers.Messaging
use messenger_backend.Api.Schemas.{
  RegisterRequest, LoginRequest, RefreshRequest, LogoutRequest, SendFriendRequest,
  CreateGroupRequest, AddGroupMemberRequest, SendDirectMessageRequest, SendGroupMessageRequest,
  GroupResponse, MembershipResponse, UserResponse, TokenPairResponse, AuthResponse,
  FriendshipResponse, DirectMessageResponse, GroupMessageResponse, is_register_request,
  is_create_group_request, is_send_direct_message_request, is_send_group_message_request,
}

pub data Route : Type 0 where
  register : RegisterRequest → Route
  login : LoginRequest → Route
  refresh : RefreshRequest → Route
  logout : LogoutRequest → Route
  get_me get_my_profile : Route
  get_user_by_username : String → Route
  get_user_by_id : Uuid → Route
  deactivate_my_account reactivate_my_account delete_my_account : Route
  send_request : SendFriendRequest → Route
  accept_request get_status remove_or_decline : Uuid → Route
  list_pending_requests list_friends : Route
  create_group : CreateGroupRequest → Route
  list_groups : Route
  get_group delete_group list_group_members : Uuid → Route
  add_member : Uuid → AddGroupMemberRequest → Route
  remove_member : Uuid → Uuid → Route
  send_direct_message : SendDirectMessageRequest → Route
  send_group_message : Uuid → SendGroupMessageRequest → Route
  get_dm_history get_group_history : Uuid → Option Timestamp → ℕ → Route

-- The bounds of the request schemas and of the query parameter `limit`.
unfoldable pub is_well_formed : Route → Bool
is_well_formed (register p) = is_register_request p
is_well_formed (create_group p) = is_create_group_request p
is_well_formed (send_direct_message p) = is_send_direct_message_request p
is_well_formed (send_group_message _ p) = is_send_group_message_request p
is_well_formed (get_dm_history _ _ limit) = leb 1 limit && leb limit 100
is_well_formed (get_group_history _ _ limit) = leb 1 limit && leb limit 100
is_well_formed _ = true

-- The body of a reply.
pub data Body : Type 0 where
  no_content : Body
  message : String → Body
  user : UserResponse → Body
  tokens : TokenPairResponse → Body
  auth : AuthResponse → Body
  group : GroupResponse → Body
  groups : List GroupResponse → Body
  membership : MembershipResponse → Body
  memberships : List MembershipResponse → Body
  friendship : FriendshipResponse → Body
  friendships : List FriendshipResponse → Body
  direct_message : DirectMessageResponse → Body
  direct_messages : List DirectMessageResponse → Body
  group_message : GroupMessageResponse → Body
  group_messages : List GroupMessageResponse → Body

unfoldable pub reply : {A : Type 0} → (A → Body) → M A → M Body
reply body m = do a ← m; pure (body a)

unfoldable pub empty : M (Unit {0}) → M Body
empty m = m >> pure no_content

-- FastAPI answers an ill-formed request by 422.
abbrev pub unprocessable : Exn
unprocessable = http 422 "Unprocessable Entity"

unfoldable pub validate : Route → M (Unit {0})
validate r = raise_if (not (is_well_formed r)) unprocessable

module _ ⦃x : External⦄ (req : Request) (credentials : Option String) where
  -- `CurrentUser`, and the validation of the request.
  unfoldable pub as_current_user : Route → (Models.User → M Body) → M Body
  as_current_user r f = do
    current_user ← get_current_user req credentials false
    validate r
    f current_user

module _ ⦃x : External⦄ (settings : AuthConfig) (req : Request) (credentials : Option String) where
  unfoldable pub call : Route → M Body
  call (register p) = validate (register p) >> reply auth (Auth.register settings req p)
  call (login p) = reply auth (Auth.login settings req p)
  call (refresh p) = reply tokens (Auth.refresh settings req p)
  call (logout p) = empty (Auth.logout p (get_raw_access_token credentials))
  call get_me = as_current_user req credentials get_me (λ u. reply user (Auth.get_me u))
  call get_my_profile =
      as_current_user req credentials get_my_profile (λ u. reply user (User.get_my_profile u))
  call (get_user_by_username name) =
      as_current_user req credentials (get_user_by_username name)
        (λ u. reply user (User.get_user_by_username name))
  call (get_user_by_id i) =
      as_current_user req credentials (get_user_by_id i) (λ u. reply user (User.get_user_by_id i))
  call deactivate_my_account =
      as_current_user req credentials deactivate_my_account
        (λ u. empty (User.deactivate_my_account u))
  call reactivate_my_account = do
    current_user ← get_current_user req credentials true
    empty (User.reactivate_my_account current_user)
  call delete_my_account =
      as_current_user req credentials delete_my_account (λ u. empty (User.delete_my_account u))
  call (send_request p) =
      as_current_user req credentials (send_request p)
        (λ u. reply message (User.send_request req.current_ts p u))
  call (accept_request i) =
      as_current_user req credentials (accept_request i)
        (λ u. reply message (User.accept_request req.current_ts i u))
  call (get_status i) =
      as_current_user req credentials (get_status i) (λ u. reply friendship (User.get_status i u))
  call (remove_or_decline i) =
      as_current_user req credentials (remove_or_decline i)
        (λ u. empty (User.remove_or_decline i u))
  call list_pending_requests =
      as_current_user req credentials list_pending_requests
        (λ u. reply friendships (User.list_pending_requests u))
  call list_friends =
      as_current_user req credentials list_friends (λ u. reply friendships (User.list_friends u))
  call (create_group p) =
      as_current_user req credentials (create_group p)
        (λ u. reply group (Group.create_group req p u))
  call list_groups =
      as_current_user req credentials list_groups (λ u. reply groups (Group.list_groups u))
  call (get_group g) =
      as_current_user req credentials (get_group g) (λ u. reply group (Group.get_group g u))
  call (delete_group g) =
      as_current_user req credentials (delete_group g) (λ u. empty (Group.delete_group g u))
  call (list_group_members g) =
      as_current_user req credentials (list_group_members g)
        (λ u. reply memberships (Group.list_group_members g))
  call (add_member g p) =
      as_current_user req credentials (add_member g p)
        (λ u. reply membership (Group.add_member req g p u))
  call (remove_member g i) =
      as_current_user req credentials (remove_member g i) (λ u. empty (Group.remove_member g i u))
  call (send_direct_message p) =
      as_current_user req credentials (send_direct_message p)
        (λ u. reply direct_message (Messaging.send_direct_message req p u))
  call (get_dm_history i before limit) =
      as_current_user req credentials (get_dm_history i before limit)
        (λ u. reply direct_messages (Messaging.get_dm_history req i u before limit))
  call (send_group_message g p) =
      as_current_user req credentials (send_group_message g p)
        (λ u. reply group_message (Messaging.send_group_message req g p u))
  call (get_group_history g before limit) =
      as_current_user req credentials (get_group_history g before limit)
        (λ u. reply group_messages (Messaging.get_group_history req g u before limit))

-- The status code of a route's success.
abbrev pub success_code : Route → ℕ
success_code (register _) = 201
success_code (logout _) = 204
success_code deactivate_my_account = 204
success_code reactivate_my_account = 204
success_code delete_my_account = 204
success_code (send_request _) = 201
success_code (remove_or_decline _) = 204
success_code (create_group _) = 201
success_code (delete_group _) = 204
success_code (add_member _ _) = 201
success_code (remove_member _ _) = 204
success_code (send_direct_message _) = 201
success_code (send_group_message _ _) = 201
success_code _ = 200

-- The exception handlers of src/main.py; an HTTPException carries its own code.
abbrev pub error_code : Exn → ℕ
error_code (service e) = status_code e
error_code (http code detail) = code
error_code (constraint_violation _) = 500
error_code (not_found _ _) = 500
error_code database_error = 500
error_code (redis_error _) = 500
error_code (integrity _) = 500
error_code argon2_error = 500

-- A reply, or the status code of an error, whose text is left out.
pub record Response : Type 0 where
  pub status : ℕ
  pub body : Option Body

abbrev pub response : Route → Result Body → Response
response r (ok b) = record { status = success_code r; body = some b }
response r (err e) = record { status = error_code e; body = none }

-- One request to a worker: what it reads from outside, its bearer token, its route.
pub record HttpRequest : Type 0 where
  pub outside : Request
  pub credentials : Option String
  pub route : Route

module _ ⦃x : External⦄ (settings : AuthConfig) where
  unfoldable pub respond : HttpRequest → World → Response × World
  respond r w =
      let (result, after) = call settings r.outside r.credentials r.route w in
      (response r.route result, after)

  -- The requests of a worker one after the other, whether they succeed or fail.
  unfoldable pub serve : List HttpRequest → World → World
  serve [] w = w
  serve (r ∷ rs) w = serve rs (call settings r.outside r.credentials r.route w).1
