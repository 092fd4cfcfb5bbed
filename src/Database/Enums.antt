-- ===== src/Database/Enums.antt =====
-- The string enumerations of src/database/enums.py: entities and named constraints.
use messenger_backend.Base.{Bool, true, false}

pub data Entity : Type 0 where
  user access_token refresh_token friendship group membership direct_message group_message : Entity

-- The constraints of the schema. `uq_groups_created_by_name` has a name here and no definition in
-- the tables.
pub data Constraint : Type 0 where
  pk_users uq_users_username : Constraint
  pk_friendships fk_friendships_requester_id fk_friendships_addressee_id : Constraint
  pk_access_tokens fk_access_tokens_user_id : Constraint
  pk_refresh_tokens fk_refresh_tokens_user_id : Constraint
  pk_groups uq_groups_created_by_name fk_groups_created_by : Constraint
  pk_memberships fk_memberships_group_id fk_memberships_user_id : Constraint
  pk_direct_messages fk_dm_sender_id fk_dm_recipient_id : Constraint
  pk_group_messages fk_group_messages_group_id fk_group_messages_sender_id : Constraint

-- Whether a violation is a `ForeignKeyViolationError`; that of a key or a unique constraint is a
-- `UniqueViolationError`.
abbrev pub is_foreign_key : Constraint → Bool
is_foreign_key fk_friendships_requester_id = true
is_foreign_key fk_friendships_addressee_id = true
is_foreign_key fk_access_tokens_user_id = true
is_foreign_key fk_refresh_tokens_user_id = true
is_foreign_key fk_groups_created_by = true
is_foreign_key fk_memberships_group_id = true
is_foreign_key fk_memberships_user_id = true
is_foreign_key fk_dm_sender_id = true
is_foreign_key fk_dm_recipient_id = true
is_foreign_key fk_group_messages_group_id = true
is_foreign_key fk_group_messages_sender_id = true
is_foreign_key _ = false
