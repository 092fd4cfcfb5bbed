-- ===== src/Database/Tables.antt =====
-- The tables of src/database/sql.py, EnsureTableExists, and what its constraints ask of them.
use messenger_backend.Base.{
  ◌≡◌, Bool, true, false, Option, none, some, List, [], ◌&&◌, ◌==◌, str_eq, any, All, Distinct,
}
use messenger_backend.Database.Models.{
  Uuid, User, Friendship, Token, Group, Membership, DirectMessage, GroupMessage,
}

pub record Db : Type 0 where
  pub users : List User
  pub friendships : List Friendship
  pub access_tokens : List Token
  pub refresh_tokens : List Token
  pub groups : List Group
  pub memberships : List Membership
  pub direct_messages : List DirectMessage
  pub group_messages : List GroupMessage

abbrev pub empty : Db
empty = record {
  users = [];
  friendships = [];
  access_tokens = [];
  refresh_tokens = [];
  groups = [];
  memberships = [];
  direct_messages = [];
  group_messages = [];
}

-- `created_by = $1`, which no null satisfies.
abbrev pub same_id : Option Uuid → Uuid → Bool
same_id none b = false
same_id (some a) b = a == b

abbrev pub has_user : List User → Uuid → Bool
has_user users i = any (λ u. u.user_id == i) users

abbrev pub has_group : List Group → Uuid → Bool
has_group groups i = any (λ g. g.group_id == i) groups

abbrev pub has_creator : List User → Option Uuid → Bool
has_creator users none = false
has_creator users (some i) = has_user users i

abbrev pub same_user : User → User → Bool
same_user a b = a.user_id == b.user_id

abbrev pub same_username : User → User → Bool
same_username a b = str_eq a.username b.username

abbrev pub same_friendship : Friendship → Friendship → Bool
same_friendship a b = (a.requester_id == b.requester_id) && (a.addressee_id == b.addressee_id)

abbrev pub same_token : Token → Token → Bool
same_token a b = str_eq a.token_hash b.token_hash

abbrev pub same_group : Group → Group → Bool
same_group a b = a.group_id == b.group_id

abbrev pub same_membership : Membership → Membership → Bool
same_membership a b = (a.group_id == b.group_id) && (a.user_id == b.user_id)

abbrev pub same_dm : DirectMessage → DirectMessage → Bool
same_dm a b = a.message_id == b.message_id

abbrev pub same_group_message : GroupMessage → GroupMessage → Bool
same_group_message a b = a.message_id == b.message_id

-- The primary keys and the unique usernames.
pub record HasKeys (db : Db) : Type 0 where
  pub users : Distinct same_user db.users
  pub usernames : Distinct same_username db.users
  pub friendships : Distinct same_friendship db.friendships
  pub access_tokens : Distinct same_token db.access_tokens
  pub refresh_tokens : Distinct same_token db.refresh_tokens
  pub groups : Distinct same_group db.groups
  pub memberships : Distinct same_membership db.memberships
  pub direct_messages : Distinct same_dm db.direct_messages
  pub group_messages : Distinct same_group_message db.group_messages

-- The foreign keys.
pub record HasReferences (db : Db) : Type 0 where
  pub requesters : All (λ f. has_user db.users f.requester_id ≡ true) db.friendships
  pub addressees : All (λ f. has_user db.users f.addressee_id ≡ true) db.friendships
  pub access_users : All (λ t. has_user db.users t.user_id ≡ true) db.access_tokens
  pub refresh_users : All (λ t. has_user db.users t.user_id ≡ true) db.refresh_tokens
  pub creators : All (λ g. has_creator db.users g.created_by ≡ true) db.groups
  pub member_groups : All (λ m. has_group db.groups m.group_id ≡ true) db.memberships
  pub member_users : All (λ m. has_user db.users m.user_id ≡ true) db.memberships
  pub senders : All (λ m. has_user db.users m.sender_id ≡ true) db.direct_messages
  pub recipients : All (λ m. has_user db.users m.recipient_id ≡ true) db.direct_messages
  pub message_groups : All (λ m. has_group db.groups m.group_id ≡ true) db.group_messages
  pub message_senders : All (λ m. has_user db.users m.sender_id ≡ true) db.group_messages

pub record IsConsistent (db : Db) : Type 0 where
  pub keys : HasKeys db
  pub references : HasReferences db
