-- ===== src/Services/WebSocket/Dispatch.antt =====
-- What WebSocketManager of src/services/websocket.py publishes, and how a worker that receives a
-- payload dispatches it: the frames that it sends, and its registries afterwards.
use messenger_backend.Base.{
  Bool, true, Option, none, some, List, [], ◌∷◌, ◌++◌, map, not, ◌==◌, str_eq, if◌then◌else◌, keep,
}
use messenger_backend.Database.Models.{Uuid}
use messenger_backend.Effects.{
  Task, push_group_membership_change, group_deletion_side_effects, push_to_user, push_to_group,
}
use messenger_backend.Redis.Events.{
  Field, text, id, EventDict, get, EventType, MembershipAction, join, leave, RedisEvent,
  group_membership_event, group_deleted_event, to_dict, Payload,
}
use messenger_backend.Services.Cache.{is_event}
use messenger_backend.Services.WebSocket.{
  Socket, Registry, sockets_of, members_of, change_membership, remove_group,
}

abbrev pub Sent : Type 0
Sent = Socket × EventDict

-- `{"data": …}`
abbrev pub unrouted : RedisEvent → Payload
unrouted e = record { user_id = none; group_id = none; sender_id = none; frame = to_dict e }

-- The payload that a spawned task publishes, where no Redis command fails.
abbrev pub published : Task → Payload
published (push_group_membership_change user_id group_id action) =
    unrouted (group_membership_event action user_id group_id)
published (group_deletion_side_effects group_id _) = unrouted (group_deleted_event group_id)
published (push_to_user user_id event) = record {
  user_id = some user_id;
  group_id = none;
  sender_id = none;
  frame = to_dict event;
}
published (push_to_group group_id event sender_id) = record {
  user_id = none;
  group_id = some group_id;
  sender_id = sender_id;
  frame = to_dict event;
}

-- The attempts to send; one that fails is logged, and stops no other.
unfoldable pub send_frame_to_user_sockets : Uuid → EventDict → Registry → List Sent
send_frame_to_user_sockets user_id frame r = map (λ ws. (ws, frame)) (sockets_of user_id r)

-- One frame for every socket of every user.
abbrev pub send_frame_to_users : List Uuid → EventDict → Registry → List Sent
unfolding send_frame_to_user_sockets
send_frame_to_users [] frame r = []
send_frame_to_users (u ∷ us) frame r =
    send_frame_to_user_sockets u frame r ++ send_frame_to_users us frame r

-- `UUID(data[key])`, where `none` is a KeyError or a ValueError.
abbrev pub uuid_of : Option Field → Option Uuid
uuid_of (some (id i)) = some i
uuid_of _ = none

-- `MembershipAction(data["action"])`
abbrev pub action_of : Option Field → Option MembershipAction
action_of (some (text s)) =
    if str_eq s "JOIN" then some join else if str_eq s "LEAVE" then some leave else none
action_of _ = none

infixr 20 ◌and_then◌
abbrev pub ◌and_then◌ : {A B : Type 0} → Option A → (A → Option B) → Option B
none and_then f = none
some a and_then f = f a

unfoldable pub handle_membership_change : EventDict → Registry → Option (List Sent × Registry)
unfolding send_frame_to_user_sockets
handle_membership_change frame r = uuid_of (get frame "user_id") and_then λ user_id.
    uuid_of (get frame "group_id") and_then λ group_id.
    action_of (get frame "action") and_then λ action.
    let after = change_membership action user_id group_id r in
    some (send_frame_to_user_sockets user_id frame after, after)

-- With nothing between the read of the members and the removal of the group.
unfoldable pub handle_group_deleted : EventDict → Registry → Option (List Sent × Registry)
handle_group_deleted frame r = uuid_of (get frame "group_id") and_then λ group_id.
    let local_members = members_of group_id r in
    some (send_frame_to_users local_members frame r, remove_group group_id local_members r)

-- `member_id != sender_id`
abbrev pub is_other : Option Uuid → Uuid → Bool
is_other none member_id = true
is_other (some sender_id) member_id = not (member_id == sender_id)

unfoldable pub dispatch_group_message : Uuid → Option Uuid → EventDict → Registry → List Sent
dispatch_group_message group_id sender_id frame r =
    send_frame_to_users (keep (is_other sender_id) (members_of group_id r)) frame r

-- By the routing hints: the user's before the group's.
unfoldable pub dispatch_routed : Payload → Option Uuid → Option Uuid → Registry → List Sent
unfolding send_frame_to_user_sockets dispatch_group_message
dispatch_routed p (some user_id) _ r = send_frame_to_user_sockets user_id p.frame r
dispatch_routed p none (some group_id) r = dispatch_group_message group_id p.sender_id p.frame r
dispatch_routed p none none r = []

-- `none` where the handler raises, which `_safe_dispatch` of src/redis/pubsub.py logs.
unfoldable pub dispatch_local_message : Payload → Registry → Option (List Sent × Registry)
unfolding handle_membership_change handle_group_deleted dispatch_routed
dispatch_local_message p r =
    if is_event EventType.group_membership (get p.frame "event")
    then handle_membership_change p.frame r
    else if is_event EventType.group_deleted (get p.frame "event")
    then handle_group_deleted p.frame r
    else some (dispatch_routed p p.user_id p.group_id r, r)
