-- ===== src/Redis/Events.antt =====
-- The events of src/redis/events.py and the dictionaries that they are sent as. A field of a
-- dictionary is a text, or the text of an identifier or of an instant, kept as what it stands for;
-- `json.dumps` and `json.loads` take a dictionary over unchanged.
use messenger_backend.Base.{String, Option, none, some, List, [], ◌∷◌, str_eq, if◌then◌else◌}
use messenger_backend.Database.Models.{Uuid, Timestamp, DirectMessage, GroupMessage}

pub data Field : Type 0 where
  text : String → Field
  id : Uuid → Field
  instant : Timestamp → Field

abbrev pub EventDict : Type 0
EventDict = List (String × Field)

-- `d.get(key)`
abbrev pub get : EventDict → String → Option Field
get [] key = none
get ((k, v) ∷ d) key = if str_eq k key then some v else get d key

pub data EventType : Type 0 where
  direct_message group_message group_membership group_deleted : EventType
  user_invalidated token_revoked : EventType

abbrev pub value : EventType → String
value direct_message = "direct_message"
value group_message = "group_message"
value group_membership = "group_membership"
value group_deleted = "group_deleted"
value user_invalidated = "user_invalidated"
value token_revoked = "token_revoked"

pub data MembershipAction : Type 0 where
  join leave : MembershipAction

abbrev pub action_value : MembershipAction → String
action_value join = "JOIN"
action_value leave = "LEAVE"

-- The subclasses of RedisEvent, with the fields that each adds.
pub data RedisEvent : Type 0 where
  direct_message_event : DirectMessage → RedisEvent
  group_message_event : GroupMessage → RedisEvent
  group_membership_event : MembershipAction → Uuid → Uuid → RedisEvent
  group_deleted_event : Uuid → RedisEvent
  user_invalidated_event : Uuid → RedisEvent
  token_revoked_event : String → RedisEvent

abbrev pub event_type : RedisEvent → EventType
event_type (direct_message_event _) = direct_message
event_type (group_message_event _) = group_message
event_type (group_membership_event _ _ _) = group_membership
event_type (group_deleted_event _) = group_deleted
event_type (user_invalidated_event _) = user_invalidated
event_type (token_revoked_event _) = token_revoked

-- The fields of the subclass, below those of the base class.
abbrev pub own_fields : RedisEvent → EventDict
own_fields (direct_message_event m) =
    ("message_id", id m.message_id)
    ∷ ("sender_id", id m.sender_id)
    ∷ ("recipient_id", id m.recipient_id)
    ∷ ("content", text m.content)
    ∷ ("created_at", instant m.created_at)
    ∷ []
own_fields (group_message_event m) =
    ("message_id", id m.message_id)
    ∷ ("group_id", id m.group_id)
    ∷ ("sender_id", id m.sender_id)
    ∷ ("content", text m.content)
    ∷ ("created_at", instant m.created_at)
    ∷ []
own_fields (group_membership_event action user_id group_id) =
    ("action", text (action_value action))
    ∷ ("user_id", id user_id)
    ∷ ("group_id", id group_id)
    ∷ []
own_fields (group_deleted_event group_id) = ("group_id", id group_id) ∷ []
own_fields (user_invalidated_event user_id) = ("user_id", id user_id) ∷ []
own_fields (token_revoked_event token_hash) = ("token_hash", text token_hash) ∷ []

abbrev pub to_dict : RedisEvent → EventDict
to_dict e = ("event", text (value (event_type e))) ∷ own_fields e

-- A Pub/Sub payload: the routing hints that are there, and the event's dictionary.
pub record Payload : Type 0 where
  pub user_id : Option Uuid
  pub group_id : Option Uuid
  pub sender_id : Option Uuid
  pub frame : EventDict
