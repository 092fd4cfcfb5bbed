-- ===== src/Database/Records.antt =====
-- Rows and models: `DBModel` of src/database/models.py, between the records that asyncpg returns, the
-- arguments that it is given, and the model classes.
pub mod Statements
pub mod Conversion
pub mod RoundTrip
use messenger_backend.Base.{
  ℕ, String, Bool, true, false, not, Option, none, some, List, [], ◌∷◌, any, keep, str_eq,
  if◌then◌else◌,
}
use messenger_backend.Database.Models
use messenger_backend.Database.Models.{
  Uuid, Timestamp, User, Friendship, Token, Membership, DirectMessage, GroupMessage,
}

pub data Column : Type 0 where
  uuid : Uuid → Column
  text : String → Column
  boolean : Bool → Column
  instant : Timestamp → Column
  null : Column

-- `asyncpg.Record`, and the dictionary of one: no two columns have the same name.
abbrev pub Record : Type 0
Record = List (String × Column)

pub data ModelClass : Type 0 where
  user_class friendship_class access_token_class refresh_token_class : ModelClass
  group_class membership_class direct_message_class group_message_class : ModelClass

pub data DbModel : Type 0 where
  user : User → DbModel
  friendship : Friendship → DbModel
  access_token refresh_token : Token → DbModel
  group : Models.Group → DbModel
  membership : Membership → DbModel
  direct_message : DirectMessage → DbModel
  group_message : GroupMessage → DbModel

abbrev pub class_of : DbModel → ModelClass
class_of (user _) = user_class
class_of (friendship _) = friendship_class
class_of (access_token _) = access_token_class
class_of (refresh_token _) = refresh_token_class
class_of (group _) = group_class
class_of (membership _) = membership_class
class_of (direct_message _) = direct_message_class
class_of (group_message _) = group_message_class

-- The parameters of the `__init__` of an instance: the fields of its class, in the order of their
-- annotations.
abbrev pub valid_keys : ModelClass → List String
valid_keys user_class = "user_id" ∷ "username" ∷ "password_hash" ∷ "deactivated" ∷ "created_at" ∷ []
valid_keys friendship_class =
    "requester_id" ∷ "addressee_id" ∷ "accepted" ∷ "created_at" ∷ "updated_at" ∷ []
valid_keys access_token_class = "token_hash" ∷ "user_id" ∷ "is_revoked" ∷ "expires_at" ∷ []
valid_keys refresh_token_class = "token_hash" ∷ "user_id" ∷ "is_revoked" ∷ "expires_at" ∷ []
valid_keys group_class = "group_id" ∷ "name" ∷ "created_by" ∷ "created_at" ∷ []
valid_keys membership_class = "group_id" ∷ "user_id" ∷ "joined_at" ∷ []
valid_keys direct_message_class =
    "message_id" ∷ "sender_id" ∷ "recipient_id" ∷ "content" ∷ "created_at" ∷ []
valid_keys group_message_class =
    "message_id" ∷ "group_id" ∷ "sender_id" ∷ "content" ∷ "created_at" ∷ []

abbrev pub nullable : Option Uuid → Column
nullable none = null
nullable (some i) = uuid i

-- The values of the fields, which are passed for `$1`, `$2` and so on.
unfoldable pub to_args : DbModel → List Column
to_args (user m) =
    uuid m.user_id
    ∷ text m.username
    ∷ text m.password_hash
    ∷ boolean m.deactivated
    ∷ instant m.created_at
    ∷ []
to_args (friendship m) =
    uuid m.requester_id
    ∷ uuid m.addressee_id
    ∷ boolean m.accepted
    ∷ instant m.created_at
    ∷ instant m.updated_at
    ∷ []
to_args (access_token m) =
    text m.token_hash ∷ uuid m.user_id ∷ boolean m.is_revoked ∷ instant m.expires_at ∷ []
to_args (refresh_token m) =
    text m.token_hash ∷ uuid m.user_id ∷ boolean m.is_revoked ∷ instant m.expires_at ∷ []
to_args (group m) =
    uuid m.group_id ∷ text m.name ∷ nullable m.created_by ∷ instant m.created_at ∷ []
to_args (membership m) = uuid m.group_id ∷ uuid m.user_id ∷ instant m.joined_at ∷ []
to_args (direct_message m) =
    uuid m.message_id
    ∷ uuid m.sender_id
    ∷ uuid m.recipient_id
    ∷ text m.content
    ∷ instant m.created_at
    ∷ []
to_args (group_message m) =
    uuid m.message_id
    ∷ uuid m.group_id
    ∷ uuid m.sender_id
    ∷ text m.content
    ∷ instant m.created_at
    ∷ []

abbrev pub get : String → Record → Option Column
get k [] = none
get k ((j, v) ∷ r) = if str_eq j k then some v else get k r

-- The values under the names that they are for.
abbrev pub inserted : List String → List Column → Record
inserted [] vs = []
inserted (k ∷ ks) [] = []
inserted (k ∷ ks) (v ∷ vs) = (k, v) ∷ inserted ks vs

-- What the default factories give.
pub record Defaults : Type 0 where
  pub uuid_v4 : Uuid
  pub current_ts : Timestamp

-- A keyword argument: without a default, a missing one is a TypeError; a column of another type than
-- the declared one has no model here.
abbrev pub with_default : Column → Option Column → Option Column
with_default d none = some d
with_default d c = c

abbrev pub as_uuid : Option Column → Option Uuid
as_uuid (some (uuid i)) = some i
as_uuid _ = none

abbrev pub as_nullable : Option Column → Option (Option Uuid)
as_nullable (some (uuid i)) = some (some i)
as_nullable (some null) = some none
as_nullable _ = none

abbrev pub as_text : Option Column → Option String
as_text (some (text s)) = some s
as_text _ = none

abbrev pub as_boolean : Option Column → Option Bool
as_boolean (some (boolean b)) = some b
as_boolean _ = none

abbrev pub as_instant : Option Column → Option Timestamp
as_instant (some (instant t)) = some t
as_instant _ = none

infixl 5 ◌>>=◌
abbrev pub ◌>>=◌ : {A B : Type 0} → Option A → (A → Option B) → Option B
none >>= f = none
some a >>= f = f a

abbrev pub construct_token : Record → Option Token
construct_token r = do
  h ← as_text (get "token_hash" r)
  i ← as_uuid (get "user_id" r)
  b ← as_boolean (with_default (boolean false) (get "is_revoked" r))
  t ← as_instant (get "expires_at" r)
  some (record { token_hash = h; user_id = i; is_revoked = b; expires_at = t })

-- `__init__`
unfoldable pub init : Defaults → ModelClass → Record → Option DbModel
init d user_class r = do
  i ← as_uuid (with_default (uuid d.uuid_v4) (get "user_id" r))
  name ← as_text (get "username" r)
  h ← as_text (get "password_hash" r)
  b ← as_boolean (with_default (boolean false) (get "deactivated" r))
  t ← as_instant (with_default (instant d.current_ts) (get "created_at" r))
  some (
      user (record {
        user_id = i;
        username = name;
        password_hash = h;
        deactivated = b;
        created_at = t;
      }))
init d friendship_class r = do
  a ← as_uuid (get "requester_id" r)
  b ← as_uuid (get "addressee_id" r)
  accepted ← as_boolean (with_default (boolean false) (get "accepted" r))
  t ← as_instant (with_default (instant d.current_ts) (get "created_at" r))
  u ← as_instant (with_default (instant d.current_ts) (get "updated_at" r))
  some (
      friendship (record {
        requester_id = a;
        addressee_id = b;
        accepted = accepted;
        created_at = t;
        updated_at = u;
      }))
init d access_token_class r = do t ← construct_token r; some (access_token t)
init d refresh_token_class r = do t ← construct_token r; some (refresh_token t)
init d group_class r = do
  i ← as_uuid (with_default (uuid d.uuid_v4) (get "group_id" r))
  name ← as_text (get "name" r)
  c ← as_nullable (with_default null (get "created_by" r))
  t ← as_instant (with_default (instant d.current_ts) (get "created_at" r))
  some (group (record { group_id = i; name = name; created_by = c; created_at = t }))
init d membership_class r = do
  g ← as_uuid (get "group_id" r)
  i ← as_uuid (get "user_id" r)
  t ← as_instant (with_default (instant d.current_ts) (get "joined_at" r))
  some (membership (record { group_id = g; user_id = i; joined_at = t }))
init d direct_message_class r = do
  i ← as_uuid (with_default (uuid d.uuid_v4) (get "message_id" r))
  a ← as_uuid (get "sender_id" r)
  b ← as_uuid (get "recipient_id" r)
  s ← as_text (get "content" r)
  t ← as_instant (with_default (instant d.current_ts) (get "created_at" r))
  some (
      direct_message
        (record { message_id = i; sender_id = a; recipient_id = b; content = s; created_at = t }))
init d group_message_class r = do
  i ← as_uuid (with_default (uuid d.uuid_v4) (get "message_id" r))
  g ← as_uuid (get "group_id" r)
  a ← as_uuid (get "sender_id" r)
  s ← as_text (get "content" r)
  t ← as_instant (with_default (instant d.current_ts) (get "created_at" r))
  some (
      group_message
        (record { message_id = i; group_id = g; sender_id = a; content = s; created_at = t }))
