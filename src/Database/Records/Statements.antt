-- ===== src/Database/Records/Statements.antt =====
-- The rows that the statements of src/database/sql.py make of a model's arguments, and those that
-- they return.
use messenger_backend.Base.{String, Option, none, some, List, [], ◌∷◌}
use messenger_backend.Database.Records.{
  Column, null, Record, ModelClass, user_class, friendship_class, access_token_class,
  refresh_token_class, group_class, membership_class, direct_message_class, group_message_class,
  get,
}

-- The columns that the INSERT of a model's arguments names; a friendship is inserted otherwise.
abbrev pub insert_columns : ModelClass → Option (List String)
insert_columns user_class =
    some ("user_id" ∷ "username" ∷ "password_hash" ∷ "deactivated" ∷ "created_at" ∷ [])
insert_columns friendship_class = none
insert_columns access_token_class =
    some ("token_hash" ∷ "user_id" ∷ "is_revoked" ∷ "expires_at" ∷ [])
insert_columns refresh_token_class =
    some ("token_hash" ∷ "user_id" ∷ "is_revoked" ∷ "expires_at" ∷ [])
insert_columns group_class = some ("group_id" ∷ "name" ∷ "created_by" ∷ "created_at" ∷ [])
insert_columns membership_class = some ("group_id" ∷ "user_id" ∷ "joined_at" ∷ [])
insert_columns direct_message_class =
    some ("message_id" ∷ "sender_id" ∷ "recipient_id" ∷ "content" ∷ "created_at" ∷ [])
insert_columns group_message_class =
    some ("message_id" ∷ "group_id" ∷ "sender_id" ∷ "content" ∷ "created_at" ∷ [])

-- The columns of a table in the order of its CREATE TABLE, in which `*` lists them.
abbrev pub table_columns : ModelClass → List String
table_columns user_class =
    "user_id" ∷ "username" ∷ "password_hash" ∷ "deactivated" ∷ "created_at" ∷ []
table_columns friendship_class =
    "requester_id" ∷ "addressee_id" ∷ "accepted" ∷ "created_at" ∷ "updated_at" ∷ []
table_columns access_token_class = "token_hash" ∷ "user_id" ∷ "expires_at" ∷ "is_revoked" ∷ []
table_columns refresh_token_class = "token_hash" ∷ "user_id" ∷ "is_revoked" ∷ "expires_at" ∷ []
table_columns group_class = "group_id" ∷ "name" ∷ "created_by" ∷ "created_at" ∷ []
table_columns membership_class = "group_id" ∷ "user_id" ∷ "joined_at" ∷ []
table_columns direct_message_class =
    "message_id" ∷ "sender_id" ∷ "recipient_id" ∷ "content" ∷ "created_at" ∷ []
table_columns group_message_class =
    "message_id" ∷ "group_id" ∷ "sender_id" ∷ "content" ∷ "created_at" ∷ []

abbrev pub or_null : Option Column → Column
or_null none = null
or_null (some v) = v

-- `SELECT *` of the row; a column that was not inserted, and has no default, is null.
abbrev pub select_all : List String → Record → Record
select_all [] r = []
select_all (k ∷ ks) r = (k, or_null (get k r)) ∷ select_all ks r
