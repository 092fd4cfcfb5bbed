-- ===== src/Database/Models.antt =====
-- The model classes of src/database/models.py. A UUID is only compared, and so is a number; an
-- instant is a number of clock ticks. `AccessToken` and `RefreshToken` have the same fields.
use messenger_backend.Base.{ℕ, String, Bool, Option, leb}

abbrev pub Uuid : Type 0
Uuid = ℕ

abbrev pub Timestamp : Type 0
Timestamp = ℕ

pub record User : Type 0 where
  pub user_id : Uuid
  pub username : String
  pub password_hash : String
  pub deactivated : Bool
  pub created_at : Timestamp

pub record Friendship : Type 0 where
  pub requester_id : Uuid
  pub addressee_id : Uuid
  pub accepted : Bool
  pub created_at : Timestamp
  pub updated_at : Timestamp

pub record Token : Type 0 where
  pub token_hash : String
  pub user_id : Uuid
  pub is_revoked : Bool
  pub expires_at : Timestamp

-- `is_expired`, of an access token and of a refresh token.
abbrev pub is_expired : Timestamp → Token → Bool
is_expired current_ts t = leb t.expires_at current_ts

pub record Group : Type 0 where
  pub group_id : Uuid
  pub name : String
  pub created_by : Option Uuid
  pub created_at : Timestamp

pub record Membership : Type 0 where
  pub group_id : Uuid
  pub user_id : Uuid
  pub joined_at : Timestamp

pub record DirectMessage : Type 0 where
  pub message_id : Uuid
  pub sender_id : Uuid
  pub recipient_id : Uuid
  pub content : String
  pub created_at : Timestamp

pub record GroupMessage : Type 0 where
  pub message_id : Uuid
  pub group_id : Uuid
  pub sender_id : Uuid
  pub content : String
  pub created_at : Timestamp
