-- ===== src/Database/Schema.antt =====
-- The set-up of the schema: EnsureTableExists, EnsureIndexExists and CLEAR_TABLES of
-- src/database/sql.py, and the functions of src/database/queries.py that run them.
pub mod SetUp
use messenger_backend.Base.{
  ℕ, zero, suc, String, Bool, true, false, Option, none, some, List, [], ◌∷◌, ◌++◌, ◌&&◌, ◌||◌,
  ◌==◌, str_eq, if◌then◌else◌,
}
use messenger_backend.Database.Records.{
  ModelClass, user_class, friendship_class, access_token_class, refresh_token_class, group_class,
  membership_class, direct_message_class, group_message_class,
}
use messenger_backend.Database.Records.Statements.{table_columns}
use messenger_backend.Database.Tables.{Db}

-- A table is named by the class of its rows.
unfoldable pub table_number : ModelClass → ℕ
table_number user_class = 0
table_number friendship_class = 1
table_number access_token_class = 2
table_number refresh_token_class = 3
table_number group_class = 4
table_number membership_class = 5
table_number direct_message_class = 6
table_number group_message_class = 7

abbrev pub same_table : ModelClass → ModelClass → Bool
same_table a b = table_number a == table_number b

abbrev pub lists_table : ModelClass → List ModelClass → Bool
lists_table t [] = false
lists_table t (u ∷ l) = same_table u t || lists_table t l

-- The statements, in the order of EnsureTableExists.
abbrev pub table_statements : List ModelClass
table_statements =
    user_class ∷ friendship_class ∷ access_token_class ∷ refresh_token_class ∷ group_class
    ∷ membership_class ∷ direct_message_class ∷ group_message_class ∷ []

-- The tables of the REFERENCES clauses.
unfoldable pub references : ModelClass → List ModelClass
references user_class = []
references friendship_class = user_class ∷ []
references access_token_class = user_class ∷ []
references refresh_token_class = user_class ∷ []
references group_class = user_class ∷ []
references membership_class = group_class ∷ user_class ∷ []
references direct_message_class = user_class ∷ []
references group_message_class = group_class ∷ user_class ∷ []

pub data Index : Type 0 where
  idx_friendships_addressee_id idx_friendships_requester_id : Index
  idx_access_tokens_user_id idx_refresh_tokens_user_id : Index
  idx_access_tokens_expires_at idx_refresh_tokens_expires_at : Index
  idx_groups_created_by idx_memberships_user_id : Index
  idx_dm_sender_recipient idx_dm_recipient_sender : Index
  idx_group_messages_timeline idx_group_messages_sender_id : Index

-- The statements, in the order of EnsureIndexExists.
abbrev pub index_statements : List Index
index_statements =
    idx_friendships_addressee_id ∷ idx_friendships_requester_id ∷ idx_access_tokens_user_id
    ∷ idx_refresh_tokens_user_id ∷ idx_access_tokens_expires_at ∷ idx_refresh_tokens_expires_at
    ∷ idx_groups_created_by ∷ idx_memberships_user_id ∷ idx_dm_sender_recipient
    ∷ idx_dm_recipient_sender ∷ idx_group_messages_timeline ∷ idx_group_messages_sender_id ∷ []

-- The place of an index in that order.
unfoldable pub index_number : Index → ℕ
index_number idx_friendships_addressee_id = 0
index_number idx_friendships_requester_id = 1
index_number idx_access_tokens_user_id = 2
index_number idx_refresh_tokens_user_id = 3
index_number idx_access_tokens_expires_at = 4
index_number idx_refresh_tokens_expires_at = 5
index_number idx_groups_created_by = 6
index_number idx_memberships_user_id = 7
index_number idx_dm_sender_recipient = 8
index_number idx_dm_recipient_sender = 9
index_number idx_group_messages_timeline = 10
index_number idx_group_messages_sender_id = 11

abbrev pub lists_index : Index → List Index → Bool
lists_index i [] = false
lists_index i (j ∷ l) = (index_number j == index_number i) || lists_index i l

-- The table of an index, and its columns.
unfoldable pub indexed : Index → ModelClass × List String
indexed idx_friendships_addressee_id = (friendship_class, "addressee_id" ∷ "accepted" ∷ [])
indexed idx_friendships_requester_id = (friendship_class, "requester_id" ∷ "accepted" ∷ [])
indexed idx_access_tokens_user_id = (access_token_class, "user_id" ∷ [])
indexed idx_refresh_tokens_user_id = (refresh_token_class, "user_id" ∷ [])
indexed idx_access_tokens_expires_at = (access_token_class, "expires_at" ∷ [])
indexed idx_refresh_tokens_expires_at = (refresh_token_class, "expires_at" ∷ [])
indexed idx_groups_created_by = (group_class, "created_by" ∷ [])
indexed idx_memberships_user_id = (membership_class, "user_id" ∷ "group_id" ∷ [])
indexed idx_dm_sender_recipient =
    (direct_message_class, "sender_id" ∷ "recipient_id" ∷ "created_at" ∷ [])
indexed idx_dm_recipient_sender =
    (direct_message_class, "recipient_id" ∷ "sender_id" ∷ "created_at" ∷ [])
indexed idx_group_messages_timeline = (group_message_class, "group_id" ∷ "created_at" ∷ [])
indexed idx_group_messages_sender_id = (group_message_class, "sender_id" ∷ [])

-- The tables and indexes that the database has, each as its statement makes it.
pub record Schema : Type 0 where
  pub tables : List ModelClass
  pub indexes : List Index

abbrev pub lists_all : List ModelClass → List ModelClass → Bool
lists_all [] l = true
lists_all (t ∷ ts) l = lists_table t l && lists_all ts l

abbrev pub lists_name : String → List String → Bool
lists_name k [] = false
lists_name k (j ∷ l) = str_eq j k || lists_name k l

abbrev pub lists_names : List String → List String → Bool
lists_names [] l = true
lists_names (k ∷ ks) l = lists_name k l && lists_names ks l

-- `CREATE TABLE IF NOT EXISTS`: PostgreSQL wants the tables that it references. `none` is an error.
unfoldable pub create_table : ModelClass → Schema → Option Schema
create_table t s =
    if lists_table t s.tables
    then some s
    else if lists_all (references t) s.tables
    then some (record s { tables = t ∷ s.tables })
    else none

-- `CREATE INDEX IF NOT EXISTS`, which wants the table and its columns; a table that is there has those
-- of its statement.
unfoldable pub create_index : Index → Schema → Option Schema
create_index i s =
    if lists_table (indexed i).0 s.tables && lists_names (indexed i).1 (table_columns (indexed i).0)
    then some (if lists_index i s.indexes then s else record s { indexes = i ∷ s.indexes })
    else none

abbrev pub and_then : Option Schema → (Schema → Option Schema) → Option Schema
and_then none f = none
and_then (some s) f = f s

-- `for statement in ...: await conn.execute(statement)`
abbrev pub execute_all :
    {A : Type 0} → (A → Schema → Option Schema) → List A → Schema → Option Schema
execute_all run [] s = some s
execute_all run (a ∷ l) s = and_then (run a s) (execute_all run l)

unfoldable pub ensure_tables_exist : Schema → Option Schema
ensure_tables_exist s = execute_all create_table table_statements s

unfoldable pub ensure_indexes_exist : Schema → Option Schema
ensure_indexes_exist s = execute_all create_index index_statements s

-- The two calls of the lifespan of src/main.py.
unfoldable pub set_up : Schema → Option Schema
set_up s = and_then (ensure_tables_exist s) ensure_indexes_exist

-- The tables that CLEAR_TABLES names.
abbrev pub truncated_tables : List ModelClass
truncated_tables =
    user_class ∷ refresh_token_class ∷ access_token_class ∷ friendship_class ∷ group_class
    ∷ membership_class ∷ []

abbrev pub lists_some : List ModelClass → List ModelClass → Bool
lists_some [] l = false
lists_some (t ∷ ts) l = lists_table t l || lists_some ts l

-- `CASCADE`: the tables that reference a table of the list are truncated as well, and so on.
abbrev pub referencing : List ModelClass → List ModelClass → List ModelClass
referencing [] l = []
referencing (t ∷ ts) l =
    let rest = referencing ts l in if lists_some (references t) l then t ∷ rest else rest

abbrev pub cascade : ℕ → List ModelClass → List ModelClass
cascade zero l = l
cascade (suc n) l = cascade n (referencing table_statements l ++ l)

abbrev pub truncate_if : {A : Type 0} → Bool → List A → List A
truncate_if b l = if b then [] else l

-- A chain of references has two at most, from messages or memberships over groups to users.
unfoldable pub clear_tables : Db → Db
clear_tables db =
    let gone = λ (t : ModelClass). lists_table t (cascade 2 truncated_tables) in
    record db {
      users = truncate_if (gone user_class) db.users;
      friendships = truncate_if (gone friendship_class) db.friendships;
      access_tokens = truncate_if (gone access_token_class) db.access_tokens;
      refresh_tokens = truncate_if (gone refresh_token_class) db.refresh_tokens;
      groups = truncate_if (gone group_class) db.groups;
      memberships = truncate_if (gone membership_class) db.memberships;
      direct_messages = truncate_if (gone direct_message_class) db.direct_messages;
      group_messages = truncate_if (gone group_message_class) db.group_messages;
    }
