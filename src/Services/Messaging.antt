-- ===== src/Services/Messaging.antt =====
-- MessagingService of src/services/messaging.py, with the keyword arguments that the routers of
-- src/api/routers/messaging.py pass.
pub mod Guards
pub mod Pages
pub mod History
pub mod Completeness
use messenger_backend.Base.{ℕ, String, [], ◌∷◌, not, List, Option, none, some}
use messenger_backend.Database.Enums.{Entity}
use messenger_backend.Database.Models.{Uuid, Timestamp, DirectMessage, GroupMessage}
use messenger_backend.Database.Errors.{uuid, text}
use messenger_backend.Database.Queries
use messenger_backend.Effects.{
  M, pure, raise_if, ◌>>=◌, ◌>>◌, service, transaction, connection, spawn_task, push_to_user,
  push_to_group,
}
use messenger_backend.External.{External}
use messenger_backend.Redis.Events.{direct_message_event, group_message_event}
use messenger_backend.Services.Errors.{direct_message_not_allowed, group_message_not_allowed}
use messenger_backend.Services.Request.{Request}
use messenger_backend.Services.Translation.{
  Handler, raising, handle_db_constraint_error, handle_db_not_found_error, no_overrides,
}

-- The overrides: without a friendship or a membership row, messages are not allowed.
abbrev pub friends_only : {A : Type 0} → Uuid → Entity → Option (Handler A)
friends_only recipient_id Entity.friendship =
    some (raising (direct_message_not_allowed (uuid recipient_id)))
friends_only recipient_id _ = none

abbrev pub members_only : {A : Type 0} → Uuid → Entity → Option (Handler A)
members_only group_id Entity.membership = some (raising (group_message_not_allowed (uuid group_id)))
members_only group_id _ = none

-- `before or datetime.now(UTC)`
abbrev pub cutoff : Request → Option Timestamp → Timestamp
cutoff req none = req.current_ts
cutoff req (some before) = before

module _ ⦃x : External⦄ where
  -- The guard of both direct-message methods.
  unfoldable pub require_friends : Uuid → Uuid → M (Unit {0})
  require_friends actor_id recipient_id = do
    friendship ← Queries.get_friendship_status actor_id recipient_id
    raise_if (not friendship.accepted) (service (direct_message_not_allowed (uuid recipient_id)))

  unfoldable pub send_direct_message : Request → Uuid → Uuid → String → M DirectMessage
  unfolding require_friends
  send_direct_message req sender_id recipient_id content =
      let message : DirectMessage = record {
        message_id = req.uuid_v4;
        sender_id = sender_id;
        recipient_id = recipient_id;
        content = content;
        created_at = req.current_ts;
      } in
      let kw =
        ("sender_id", uuid sender_id)
        ∷ ("recipient_id", uuid recipient_id)
        ∷ ("content", text content)
        ∷ [] in
      handle_db_constraint_error no_overrides kw (
        handle_db_not_found_error (friends_only recipient_id) kw (do
          dm ←
              transaction
                (require_friends sender_id recipient_id >> Queries.send_direct_message message)
          spawn_task (push_to_user recipient_id (direct_message_event dm))
          pure dm))

  unfoldable pub get_dm_history :
      Request → Uuid → Uuid → Option Timestamp → ℕ → M (List DirectMessage)
  unfolding require_friends
  get_dm_history req actor_id recipient_id before limit =
      let kw = ("actor_id", uuid actor_id) ∷ ("recipient_id", uuid recipient_id) ∷ [] in
      handle_db_constraint_error no_overrides kw (
        handle_db_not_found_error (friends_only recipient_id) kw (
          connection (
            require_friends actor_id recipient_id
            >> Queries.get_dm_conversation_history actor_id recipient_id (cutoff req before)
                limit)))

  unfoldable pub send_group_message : Request → Uuid → Uuid → String → M GroupMessage
  send_group_message req sender_id group_id content =
      let message : GroupMessage = record {
        message_id = req.uuid_v4;
        group_id = group_id;
        sender_id = sender_id;
        content = content;
        created_at = req.current_ts;
      } in
      let kw =
        ("sender_id", uuid sender_id)
        ∷ ("group_id", uuid group_id)
        ∷ ("content", text content)
        ∷ [] in
      handle_db_constraint_error no_overrides kw (
        handle_db_not_found_error (members_only group_id) kw (do
          msg ←
              transaction
                (do Queries.get_membership group_id sender_id; Queries.send_group_message message)
          spawn_task (push_to_group group_id (group_message_event msg) (some sender_id))
          pure msg))

  unfoldable pub get_group_history :
      Request → Uuid → Uuid → Option Timestamp → ℕ → M (List GroupMessage)
  get_group_history req actor_id group_id before limit =
      let kw = ("actor_id", uuid actor_id) ∷ ("group_id", uuid group_id) ∷ [] in
      handle_db_constraint_error no_overrides kw (
        handle_db_not_found_error (members_only group_id) kw (
          connection (do
            Queries.get_membership group_id actor_id
            Queries.get_group_messages_timeline group_id (cutoff req before) limit)))
