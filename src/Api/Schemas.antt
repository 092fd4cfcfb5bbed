-- ===== src/Api/Schemas.antt =====
-- The payloads and responses of src/api/schemas.py. A text's length is that of its code points, and
-- an ill-formed identifier or type does not reach the model.
use messenger_backend.Base.{ℕ, String, Bool, Option, ◌&&◌, leb}
use Prim.Native.String.{count}
use messenger_backend.Database.Models.{
  Uuid, Timestamp, User, Friendship, Group, Membership, DirectMessage, GroupMessage,
}
use messenger_backend.Services.Request.{TokenPair}

-- `min_length` and `max_length`.
abbrev pub has_length : ℕ → ℕ → String → Bool
has_length min max s = leb min (count s) && leb (count s) max

pub record RegisterRequest : Type 0 where
  pub username : String
  pub password : String

abbrev pub is_register_request : RegisterRequest → Bool
is_register_request p = has_length 3 50 p.username && leb 8 (count p.password)

pub record LoginRequest : Type 0 where
  pub username : String
  pub password : String

pub record RefreshRequest : Type 0 where
  pub refresh_token : String

pub record LogoutRequest : Type 0 where
  pub refresh_token : String

pub record SendFriendRequest : Type 0 where
  pub addressee_id : Uuid

pub record CreateGroupRequest : Type 0 where
  pub name : String

abbrev pub is_create_group_request : CreateGroupRequest → Bool
is_create_group_request p = has_length 1 100 p.name

pub record AddGroupMemberRequest : Type 0 where
  pub user_id : Uuid

pub record SendDirectMessageRequest : Type 0 where
  pub recipient_id : Uuid
  pub content : String

abbrev pub is_send_direct_message_request : SendDirectMessageRequest → Bool
is_send_direct_message_request p = has_length 1 4096 p.content

pub record SendGroupMessageRequest : Type 0 where
  pub content : String

abbrev pub is_send_group_message_request : SendGroupMessageRequest → Bool
is_send_group_message_request p = has_length 1 4096 p.content

pub record GroupResponse : Type 0 where
  pub group_id : Uuid
  pub name : String
  pub created_by : Option Uuid
  pub created_at : Timestamp

pub record MembershipResponse : Type 0 where
  pub group_id : Uuid
  pub user_id : Uuid
  pub joined_at : Timestamp

pub record UserResponse : Type 0 where
  pub user_id : Uuid
  pub username : String
  pub deactivated : Bool
  pub created_at : Timestamp

pub record TokenPairResponse : Type 0 where
  pub access_token : String
  pub refresh_token : String
  pub access_token_expires_at : Timestamp
  pub refresh_token_expires_at : Timestamp

pub record AuthResponse : Type 0 where
  pub user : UserResponse
  pub tokens : TokenPairResponse

pub record FriendshipResponse : Type 0 where
  pub requester_id : Uuid
  pub addressee_id : Uuid
  pub accepted : Bool
  pub created_at : Timestamp
  pub updated_at : Timestamp

pub record DirectMessageResponse : Type 0 where
  pub message_id : Uuid
  pub sender_id : Uuid
  pub recipient_id : Uuid
  pub content : String
  pub created_at : Timestamp

pub record GroupMessageResponse : Type 0 where
  pub message_id : Uuid
  pub group_id : Uuid
  pub sender_id : Uuid
  pub content : String
  pub created_at : Timestamp

-- `model_validate` of each response, by the attributes of the model.
abbrev pub validate_group : Group → GroupResponse
validate_group g = record {
  group_id = g.group_id;
  name = g.name;
  created_by = g.created_by;
  created_at = g.created_at;
}

abbrev pub validate_membership : Membership → MembershipResponse
validate_membership m = record {
  group_id = m.group_id;
  user_id = m.user_id;
  joined_at = m.joined_at;
}

abbrev pub validate_user : User → UserResponse
validate_user u = record {
  user_id = u.user_id;
  username = u.username;
  deactivated = u.deactivated;
  created_at = u.created_at;
}

abbrev pub validate_token_pair : TokenPair → TokenPairResponse
validate_token_pair t = record {
  access_token = t.access_token;
  refresh_token = t.refresh_token;
  access_token_expires_at = t.access_token_expires_at;
  refresh_token_expires_at = t.refresh_token_expires_at;
}

abbrev pub validate_friendship : Friendship → FriendshipResponse
validate_friendship f = record {
  requester_id = f.requester_id;
  addressee_id = f.addressee_id;
  accepted = f.accepted;
  created_at = f.created_at;
  updated_at = f.updated_at;
}

abbrev pub validate_direct_message : DirectMessage → DirectMessageResponse
validate_direct_message m = record {
  message_id = m.message_id;
  sender_id = m.sender_id;
  recipient_id = m.recipient_id;
  content = m.content;
  created_at = m.created_at;
}

abbrev pub validate_group_message : GroupMessage → GroupMessageResponse
validate_group_message m = record {
  message_id = m.message_id;
  group_id = m.group_id;
  sender_id = m.sender_id;
  content = m.content;
  created_at = m.created_at;
}
