-- ===== src/Database/Queries.antt =====
-- The query functions of src/database/queries.py: a statement, its row count or its row, and the
-- errors that each function makes of them. A `SELECT ... FOR UPDATE` reads what a `SELECT` does.
pub mod Results
use messenger_backend.Base.{ℕ, String, Option, none, some, List, ◌==◌, if◌then◌else◌}
use messenger_backend.Database.Enums.{Entity, Constraint, is_foreign_key}
use messenger_backend.Database.Models.{
  Uuid, Timestamp, User, Friendship, Token, Group, Membership, DirectMessage, GroupMessage,
}
use messenger_backend.Database.Errors.{Value, text, uuid, uuids, Violation, named, not_null}
use messenger_backend.Database.Sql.{Statement, Outcome, done, fails, execute}
use messenger_backend.Database.Fetch
use messenger_backend.Database.Fetch.{
  friendship_status, dm_conversation_history, group_messages_timeline,
}
use messenger_backend.Effects.{
  Exn, integrity, constraint_violation, not_found, Result, ok, err, World, M, pure, gets, or_raise,
  handle, ◌>>=◌, ◌>>◌, raise_if,
}
use messenger_backend.External.{External}

-- `ConstraintViolationError.from_asyncpg`
abbrev pub constraint_name : Violation → Option Constraint
constraint_name (named c) = some c
constraint_name not_null = none

abbrev pub on_integrity : {A : Type 0} → Exn → Result A
on_integrity (integrity v) = err (constraint_violation (constraint_name v))
on_integrity e = err e

-- `except asyncpg.IntegrityConstraintViolationError`
abbrev pub catch_integrity : {A : Type 0} → M A → M A
catch_integrity m = handle on_integrity m

-- The two clauses of `add_group_member`.
abbrev pub on_member_violation : {A : Type 0} → Uuid → Exn → Result A
on_member_violation user_id (integrity (named c)) =
    if is_foreign_key c
    then err (not_found Entity.user (uuid user_id))
    else err (constraint_violation (some c))
on_member_violation user_id e = err e

unfoldable pub found : {A : Type 0} → (World → Option A) → Entity → Value → M A
unfolding or_raise
found fetch entity identifier w = or_raise (fetch w) (not_found entity identifier) w

-- No row changed: `UPDATE 0` or `DELETE 0`.
abbrev pub require_rows : Entity → Value → ℕ → M (Unit {0})
require_rows entity identifier n = raise_if (n == 0) (not_found entity identifier)

unfoldable pub get_user_by_id : Uuid → M User
unfolding found
get_user_by_id i = found (λ w. Fetch.user_by_id i w.db) Entity.user (uuid i)

unfoldable pub get_user_by_username : String → M User
unfolding found
get_user_by_username name = found (λ w. Fetch.user_by_username name w.db) Entity.user (text name)

unfoldable pub get_access_token : String → M Token
unfolding found
get_access_token h = found (λ w. Fetch.access_token h w.db) Entity.access_token (text h)

unfoldable pub get_refresh_token : String → M Token
unfolding found
get_refresh_token h = found (λ w. Fetch.refresh_token h w.db) Entity.refresh_token (text h)

unfoldable pub list_accepted_friends : Uuid → M (List Friendship)
list_accepted_friends i = gets (λ w. Fetch.list_accepted_friends i w.db)

unfoldable pub list_pending_requests : Uuid → M (List Friendship)
list_pending_requests i = gets (λ w. Fetch.list_pending_requests i w.db)

unfoldable pub get_group_by_id : Uuid → M Group
unfolding found
get_group_by_id i = found (λ w. Fetch.group_by_id i w.db) Entity.group (uuid i)

unfoldable pub list_user_groups : Uuid → M (List Group)
list_user_groups i = gets (λ w. Fetch.list_user_groups i w.db)

-- `list_group_memberships` and `get_group_memberships`, which are one.
unfoldable pub list_group_memberships : Uuid → M (List Membership)
list_group_memberships g = gets (λ w. Fetch.list_group_memberships g w.db)

unfoldable pub get_membership : Uuid → Uuid → M Membership
unfolding found
get_membership g u = found (λ w. Fetch.membership_by_ids g u w.db) Entity.membership (uuids g u)

module _ ⦃x : External⦄ where
  abbrev pub finish : World → Outcome → Result ℕ × World
  finish w (done n db) = (ok n, record w { db = db })
  finish w (fails v) = (err (integrity v), w)

  -- `conn.execute`: the row count, or the driver's error.
  unfoldable pub run : Statement → M ℕ
  run s w = finish w (execute s w.db)

  unfoldable pub get_friendship_status : Uuid → Uuid → M Friendship
  unfolding found
  get_friendship_status a b = found (λ w. friendship_status a b w.db) Entity.friendship (uuids a b)

  -- `RETURNING *` gives the row back as it was inserted.
  unfoldable pub create_user : User → M User
  create_user u = catch_integrity (run (Statement.insert_user u)) >> pure u

  unfoldable pub deactivate_user : Uuid → M (Unit {0})
  deactivate_user i = do n ← run (Statement.deactivate_user i); require_rows Entity.user (uuid i) n

  unfoldable pub reactivate_user : Uuid → M (Unit {0})
  reactivate_user i = do n ← run (Statement.reactivate_user i); require_rows Entity.user (uuid i) n

  unfoldable pub update_user_password : Uuid → String → String → M (Unit {0})
  update_user_password i new old = do
    n ← run (Statement.change_password new i old)
    require_rows Entity.user (uuid i) n

  unfoldable pub delete_user : Uuid → M (Unit {0})
  delete_user i = do n ← run (Statement.delete_user i); require_rows Entity.user (uuid i) n

  unfoldable pub send_friend_request : Uuid → Uuid → Timestamp → M (Unit {0})
  send_friend_request a b now =
      catch_integrity (run (Statement.send_friend_request a b now)) >> pure tt

  unfoldable pub accept_friend_request : Uuid → Uuid → Timestamp → M (Unit {0})
  accept_friend_request a b now = do
    n ← run (Statement.accept_friend_request a b now)
    require_rows Entity.friendship (uuids a b) n

  unfoldable pub remove_friendship : Uuid → Uuid → M (Unit {0})
  remove_friendship a b = do
    n ← run (Statement.remove_friendship a b)
    require_rows Entity.friendship (uuids a b) n

  unfoldable pub create_access_token : Token → M (Unit {0})
  create_access_token t = catch_integrity (run (Statement.insert_access_token t)) >> pure tt

  unfoldable pub create_refresh_token : Token → M (Unit {0})
  create_refresh_token t = catch_integrity (run (Statement.insert_refresh_token t)) >> pure tt

  unfoldable pub revoke_access_token : String → M (Unit {0})
  revoke_access_token h = do
    n ← run (Statement.revoke_access_token h)
    require_rows Entity.access_token (text h) n

  unfoldable pub revoke_refresh_token : String → M (Unit {0})
  revoke_refresh_token h = do
    n ← run (Statement.revoke_refresh_token h)
    require_rows Entity.refresh_token (text h) n

  unfoldable pub revoke_all_user_access_tokens : Uuid → M (Unit {0})
  revoke_all_user_access_tokens i = run (Statement.revoke_all_user_access_tokens i) >> pure tt

  unfoldable pub revoke_all_user_refresh_tokens : Uuid → M (Unit {0})
  revoke_all_user_refresh_tokens i = run (Statement.revoke_all_user_refresh_tokens i) >> pure tt

  -- The number of purged rows.
  unfoldable pub purge_expired_access_tokens : Timestamp → M ℕ
  purge_expired_access_tokens now = run (Statement.expired_access_tokens now)

  unfoldable pub purge_expired_refresh_tokens : Timestamp → M ℕ
  purge_expired_refresh_tokens now = run (Statement.expired_refresh_tokens now)

  unfoldable pub create_group : Group → M Group
  create_group g = catch_integrity (run (Statement.create_group g)) >> pure g

  unfoldable pub delete_group : Uuid → Uuid → M (Unit {0})
  delete_group i creator = do
    n ← run (Statement.delete_group i creator)
    require_rows Entity.group (uuid i) n

  unfoldable pub add_group_member : Membership → M Membership
  add_group_member m =
      handle (on_member_violation m.user_id) (run (Statement.add_group_member m)) >> pure m

  unfoldable pub remove_group_member : Uuid → Uuid → M (Unit {0})
  remove_group_member g u = do
    n ← run (Statement.remove_group_member g u)
    require_rows Entity.membership (uuids g u) n

  unfoldable pub get_dm_conversation_history : Uuid → Uuid → Timestamp → ℕ → M (List DirectMessage)
  get_dm_conversation_history a b before limit =
      gets (λ w. dm_conversation_history a b before limit w.db)

  unfoldable pub get_group_messages_timeline : Uuid → Timestamp → ℕ → M (List GroupMessage)
  get_group_messages_timeline g before limit =
      gets (λ w. group_messages_timeline g before limit w.db)

  unfoldable pub send_direct_message : DirectMessage → M DirectMessage
  send_direct_message m = catch_integrity (run (Statement.send_dm m)) >> pure m

  unfoldable pub send_group_message : GroupMessage → M GroupMessage
  send_group_message m = catch_integrity (run (Statement.send_group_message m)) >> pure m
