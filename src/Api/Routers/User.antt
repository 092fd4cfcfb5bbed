-- ===== src/Api/Routers/User.antt =====
-- src/api/routers/user.py.
use messenger_backend.Base.{String, List, map}
use messenger_backend.Database.Models
use messenger_backend.Database.Models.{Uuid, Timestamp}
use messenger_backend.Effects.{M, pure, ◌>>=◌, ◌>>◌}
use messenger_backend.External.{External}
use messenger_backend.Services.User
use messenger_backend.Api.Schemas.{
  SendFriendRequest, UserResponse, FriendshipResponse, validate_user, validate_friendship,
}

unfoldable pub get_my_profile : Models.User → M UserResponse
get_my_profile current_user = pure (validate_user current_user)

unfoldable pub get_user_by_username : String → M UserResponse
get_user_by_username username = do user ← User.get_by_username username; pure (validate_user user)

unfoldable pub get_user_by_id : Uuid → M UserResponse
get_user_by_id user_id = do user ← User.get_by_id user_id; pure (validate_user user)

unfoldable pub list_pending_requests : Models.User → M (List FriendshipResponse)
list_pending_requests current_user = do
  pending ← User.get_pending_friend_requests current_user.user_id
  pure (map validate_friendship pending)

unfoldable pub list_friends : Models.User → M (List FriendshipResponse)
list_friends current_user = do
  friends ← User.get_friends current_user.user_id
  pure (map validate_friendship friends)

module _ ⦃x : External⦄ where
  unfoldable pub deactivate_my_account : Models.User → M (Unit {0})
  deactivate_my_account current_user = User.deactivate_account current_user.user_id

  unfoldable pub reactivate_my_account : Models.User → M (Unit {0})
  reactivate_my_account current_user = User.reactivate_account current_user.user_id

  unfoldable pub delete_my_account : Models.User → M (Unit {0})
  delete_my_account current_user = User.delete_account current_user.user_id

  -- The reply is the message alone.
  unfoldable pub send_request : Timestamp → SendFriendRequest → Models.User → M String
  send_request now payload current_user = do
    User.send_friend_request now current_user.user_id payload.addressee_id
    pure "Friend request sent successfully."

  unfoldable pub accept_request : Timestamp → Uuid → Models.User → M String
  accept_request now requester_id current_user = do
    User.accept_friend_request now current_user.user_id requester_id
    pure "Friend request accepted."

  unfoldable pub get_status : Uuid → Models.User → M FriendshipResponse
  get_status target_id current_user = do
    status_record ← User.get_friendship_status current_user.user_id target_id
    pure (validate_friendship status_record)

  unfoldable pub remove_or_decline : Uuid → Models.User → M (Unit {0})
  remove_or_decline target_id current_user =
      User.remove_or_decline_friendship current_user.user_id target_id
