-- ===== src/Database/Schema/SetUp/Statements.antt =====
-- What the lists of statements of src/database/sql.py have: every table, and every index, on columns of
-- its table.
use messenger_backend.Base.{◌≡◌, refl, true}
use messenger_backend.Database.Records.{
  ModelClass, user_class, friendship_class, access_token_class, refresh_token_class, group_class,
  membership_class, direct_message_class, group_message_class,
}
use messenger_backend.Database.Records.Statements.{table_columns}
use messenger_backend.Database.Schema.{
  lists_table, table_statements, Index, lists_index, index_statements, table_number, index_number,
  indexed, lists_names, idx_friendships_addressee_id, idx_friendships_requester_id,
  idx_access_tokens_user_id, idx_refresh_tokens_user_id, idx_access_tokens_expires_at,
  idx_refresh_tokens_expires_at, idx_groups_created_by, idx_memberships_user_id,
  idx_dm_sender_recipient, idx_dm_recipient_sender, idx_group_messages_timeline,
  idx_group_messages_sender_id,
}

-- The columns of every index are columns of its table.
pub valid_columns : (i : Index) → lists_names (indexed i).1 (table_columns (indexed i).0) ≡ true
unfolding indexed
valid_columns idx_friendships_addressee_id = refl
valid_columns idx_friendships_requester_id = refl
valid_columns idx_access_tokens_user_id = refl
valid_columns idx_refresh_tokens_user_id = refl
valid_columns idx_access_tokens_expires_at = refl
valid_columns idx_refresh_tokens_expires_at = refl
valid_columns idx_groups_created_by = refl
valid_columns idx_memberships_user_id = refl
valid_columns idx_dm_sender_recipient = refl
valid_columns idx_dm_recipient_sender = refl
valid_columns idx_group_messages_timeline = refl
valid_columns idx_group_messages_sender_id = refl

pub every_index : (i : Index) → lists_index i index_statements ≡ true
unfolding index_number
every_index idx_friendships_addressee_id = refl
every_index idx_friendships_requester_id = refl
every_index idx_access_tokens_user_id = refl
every_index idx_refresh_tokens_user_id = refl
every_index idx_access_tokens_expires_at = refl
every_index idx_refresh_tokens_expires_at = refl
every_index idx_groups_created_by = refl
every_index idx_memberships_user_id = refl
every_index idx_dm_sender_recipient = refl
every_index idx_dm_recipient_sender = refl
every_index idx_group_messages_timeline = refl
every_index idx_group_messages_sender_id = refl

pub every_table : (t : ModelClass) → lists_table t table_statements ≡ true
unfolding table_number
every_table user_class = refl
every_table friendship_class = refl
every_table access_token_class = refl
every_table refresh_token_class = refl
every_table group_class = refl
every_table membership_class = refl
every_table direct_message_class = refl
every_table group_message_class = refl
