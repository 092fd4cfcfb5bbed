-- ===== src/Services/Consistency/Social.antt =====
-- The methods of UserService, GroupService and MessagingService keep the integrity of the tables.
use messenger_backend.Base.{ℕ, Option, String}
use messenger_backend.Database.Tables.{Db, IsConsistent}
use messenger_backend.Database.Models.{Uuid, Timestamp}
use messenger_backend.Database.Queries
use messenger_backend.Database.Queries.{run, finish, found}
use messenger_backend.Effects.Keeps.{Keeps}
use messenger_backend.External.{External}
use messenger_backend.Services.Request.{Request}
use messenger_backend.Services.User
use messenger_backend.Services.Group
use messenger_backend.Services.Messaging
use messenger_backend.Services.Translation.{handle_db_constraint_error, handle_db_not_found_error}
use messenger_backend.Services.Consistency.Rules.{
  IsKept, Keeps-run_consistent, run_rules, local_rules,
}

module _ ⦃x : External⦄ {P : Db → Type 0} (k : IsKept P) where
  pub deactivate_account-Keeps : (u : Uuid) → Keeps P (User.deactivate_account u)
  unfolding User.deactivate_account handle_db_not_found_error Queries.deactivate_user
  deactivate_account-Keeps u = search run_rules depth 10

  pub reactivate_account-Keeps : (u : Uuid) → Keeps P (User.reactivate_account u)
  unfolding User.reactivate_account handle_db_not_found_error Queries.reactivate_user
  reactivate_account-Keeps u = search run_rules depth 10

  pub delete_account-Keeps : (u : Uuid) → Keeps P (User.delete_account u)
  unfolding User.delete_account handle_db_not_found_error Queries.delete_user
  delete_account-Keeps u = search run_rules depth 10

  pub send_friend_request-Keeps :
      (now : Timestamp) (a b : Uuid) → Keeps P (User.send_friend_request now a b)
  unfolding User.send_friend_request handle_db_constraint_error Queries.send_friend_request
  send_friend_request-Keeps now a b = search run_rules depth 10

  pub accept_friend_request-Keeps :
      (now : Timestamp) (a b : Uuid) → Keeps P (User.accept_friend_request now a b)
  unfolding User.accept_friend_request handle_db_not_found_error Queries.accept_friend_request
  accept_friend_request-Keeps now a b = search run_rules depth 10

  pub remove_or_decline_friendship-Keeps :
      (a b : Uuid) → Keeps P (User.remove_or_decline_friendship a b)
  unfolding User.remove_or_decline_friendship handle_db_not_found_error Queries.remove_friendship
  remove_or_decline_friendship-Keeps a b = search run_rules depth 10

  pub add_member-Keeps : (r : Request) (a g u : Uuid) → Keeps P (Group.add_member r a g u)
  unfolding Group.add_member Group.add_member_tx handle_db_constraint_error
      handle_db_not_found_error Queries.get_group_by_id Queries.add_group_member
  add_member-Keeps r a g u = search run_rules depth 14

  pub delete_group-Keeps : (a g : Uuid) → Keeps P (Group.delete_group a g)
  unfolding Group.delete_group Group.delete_group_tx handle_db_constraint_error
      handle_db_not_found_error Queries.get_group_by_id Queries.list_group_memberships
      Queries.delete_group
  delete_group-Keeps a g = search run_rules depth 14

  pub send_direct_message-Keeps :
      (r : Request) (a b : Uuid) (content : String)
      → Keeps P (Messaging.send_direct_message r a b content)
  unfolding Messaging.send_direct_message handle_db_constraint_error handle_db_not_found_error
      Queries.get_friendship_status Queries.send_direct_message
  send_direct_message-Keeps r a b content = search run_rules depth 14

  pub send_group_message-Keeps :
      (r : Request) (a g : Uuid) (content : String)
      → Keeps P (Messaging.send_group_message r a g content)
  unfolding Messaging.send_group_message handle_db_constraint_error handle_db_not_found_error
      Queries.get_membership Queries.send_group_message
  send_group_message-Keeps r a g content = search run_rules depth 14

-- The two that need more than their statements do, for the integrity of the tables.
module _ ⦃x : External⦄ where
  pub create_group-Keeps :
      (r : Request) (u : Uuid) (name : String) → Keeps IsConsistent (Group.create_group r u name)
  unfolding Group.create_group Group.create_group_tx handle_db_constraint_error Queries.create_group
      Queries.add_group_member
  create_group-Keeps r u name = search (local_rules, Keeps-run_consistent) depth 12

  pub remove_member-Keeps : (a g u : Uuid) → Keeps IsConsistent (Group.remove_member a g u)
  unfolding Group.remove_member Group.remove_member_tx handle_db_constraint_error
      handle_db_not_found_error Queries.get_group_by_id Queries.remove_group_member
  remove_member-Keeps a g u = search (local_rules, Keeps-run_consistent) depth 14

-- The methods that only read.
module _ {P : Db → Type 0} where
  pub get_by_username-Keeps : (name : String) → Keeps P (User.get_by_username name)
  unfolding User.get_by_username handle_db_not_found_error Queries.get_user_by_username
  get_by_username-Keeps name = search local_rules depth 10

  pub get_by_id-Keeps : (u : Uuid) → Keeps P (User.get_by_id u)
  unfolding User.get_by_id handle_db_not_found_error Queries.get_user_by_id
  get_by_id-Keeps u = search local_rules depth 10

  pub get_friends-Keeps : (u : Uuid) → Keeps P (User.get_friends u)
  unfolding User.get_friends Queries.list_accepted_friends
  get_friends-Keeps u = search local_rules depth 10

  pub get_pending-Keeps : (u : Uuid) → Keeps P (User.get_pending_friend_requests u)
  unfolding User.get_pending_friend_requests Queries.list_pending_requests
  get_pending-Keeps u = search local_rules depth 10

  pub list_group_members-Keeps : (g : Uuid) → Keeps P (Group.list_group_members g)
  unfolding Group.list_group_members Queries.list_group_memberships
  list_group_members-Keeps g = search local_rules depth 10

  pub list_user_groups-Keeps : (u : Uuid) → Keeps P (Group.list_user_groups u)
  unfolding Group.list_user_groups Queries.list_user_groups
  list_user_groups-Keeps u = search local_rules depth 10

  pub get_group_details-Keeps : (a g : Uuid) → Keeps P (Group.get_group_details a g)
  unfolding Group.get_group_details handle_db_constraint_error handle_db_not_found_error
      Queries.get_group_by_id Queries.get_membership
  get_group_details-Keeps a g = search local_rules depth 12

  module _ ⦃x : External⦄ where
    pub get_friendship_status-Keeps : (a b : Uuid) → Keeps P (User.get_friendship_status a b)
    unfolding User.get_friendship_status handle_db_not_found_error Queries.get_friendship_status
    get_friendship_status-Keeps a b = search local_rules depth 10

    pub get_dm_history-Keeps :
        (r : Request) (a b : Uuid) (before : Option Timestamp) (limit : ℕ)
        → Keeps P (Messaging.get_dm_history r a b before limit)
    unfolding Messaging.get_dm_history handle_db_constraint_error handle_db_not_found_error
        Queries.get_friendship_status Queries.get_dm_conversation_history
    get_dm_history-Keeps r a b before limit = search local_rules depth 14

    pub get_group_history-Keeps :
        (r : Request) (a g : Uuid) (before : Option Timestamp) (limit : ℕ)
        → Keeps P (Messaging.get_group_history r a g before limit)
    unfolding Messaging.get_group_history handle_db_constraint_error handle_db_not_found_error
        Queries.get_membership Queries.get_group_messages_timeline
    get_group_history-Keeps r a g before limit = search local_rules depth 14
