-- ===== src/Services/User.antt =====
-- UserService of src/services/user.py, with the keyword arguments that the routers of
-- src/api/routers/user.py pass.
pub mod Accounts
pub mod Friendships
use messenger_backend.Base.{String, [], ◌∷◌, ◌==◌, List}
use messenger_backend.Database.Models
use messenger_backend.Database.Models.{Uuid, Timestamp, Friendship}
use messenger_backend.Database.Errors.{uuid}
use messenger_backend.Database.Queries
use messenger_backend.Effects.{M, raise_if, ◌>>◌, service, transaction, connection}
use messenger_backend.External.{External}
use messenger_backend.Services.Errors.{self_friendship}
use messenger_backend.Services.Translation.{
  handle_db_constraint_error, handle_db_not_found_error, no_overrides,
}

unfoldable pub get_by_username : String → M Models.User
get_by_username username =
    handle_db_not_found_error no_overrides [] (connection (Queries.get_user_by_username username))

unfoldable pub get_by_id : Uuid → M Models.User
get_by_id user_id =
    handle_db_not_found_error no_overrides [] (connection (Queries.get_user_by_id user_id))

unfoldable pub get_friends : Uuid → M (List Friendship)
get_friends user_id = connection (Queries.list_accepted_friends user_id)

unfoldable pub get_pending_friend_requests : Uuid → M (List Friendship)
get_pending_friend_requests user_id = connection (Queries.list_pending_requests user_id)

module _ ⦃x : External⦄ where
  unfoldable pub deactivate_account : Uuid → M (Unit {0})
  deactivate_account user_id =
      handle_db_not_found_error no_overrides [] (transaction (Queries.deactivate_user user_id))

  unfoldable pub reactivate_account : Uuid → M (Unit {0})
  reactivate_account user_id =
      handle_db_not_found_error no_overrides [] (transaction (Queries.reactivate_user user_id))

  unfoldable pub delete_account : Uuid → M (Unit {0})
  delete_account user_id =
      handle_db_not_found_error no_overrides [] (transaction (Queries.delete_user user_id))

  unfoldable pub send_friend_request : Timestamp → Uuid → Uuid → M (Unit {0})
  send_friend_request now requester_id addressee_id =
      handle_db_constraint_error no_overrides
        (("requester_id", uuid requester_id) ∷ ("addressee_id", uuid addressee_id) ∷ [])
        (raise_if (requester_id == addressee_id) (service self_friendship)
          >> transaction (Queries.send_friend_request requester_id addressee_id now))

  unfoldable pub accept_friend_request : Timestamp → Uuid → Uuid → M (Unit {0})
  accept_friend_request now addressee_id requester_id =
      handle_db_not_found_error no_overrides
        (("addressee_id", uuid addressee_id) ∷ ("requester_id", uuid requester_id) ∷ [])
        (transaction (Queries.accept_friend_request requester_id addressee_id now))

  unfoldable pub remove_or_decline_friendship : Uuid → Uuid → M (Unit {0})
  remove_or_decline_friendship user_a user_b =
      handle_db_not_found_error no_overrides
        (("user_a", uuid user_a) ∷ ("user_b", uuid user_b) ∷ [])
        (transaction (Queries.remove_friendship user_a user_b))

  unfoldable pub get_friendship_status : Uuid → Uuid → M Friendship
  get_friendship_status user_a user_b =
      handle_db_not_found_error no_overrides
        (("user_a", uuid user_a) ∷ ("user_b", uuid user_b) ∷ [])
        (connection (Queries.get_friendship_status user_a user_b))
