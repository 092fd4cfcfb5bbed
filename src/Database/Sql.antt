-- ===== src/Database/Sql.antt =====
-- The statements of src/database/sql.py that change rows (classes Write and Delete), and what
-- PostgreSQL does with them on the tables: the constraints that it tests, the cascades of `ON
-- DELETE`, and the row count of the command status.
use messenger_backend.Base.{
  ℕ, String, Bool, true, false, List, [], ◌∷◌, not, ◌&&◌, ◌||◌, ◌==◌, ltb, str_eq, if◌then◌else◌,
  is_none, any, count, keep, update,
}
use messenger_backend.Database.Enums.{Constraint}
use messenger_backend.Database.Models.{
  Uuid, Timestamp, User, Friendship, Token, Group, Membership, DirectMessage, GroupMessage,
}
use messenger_backend.Database.Errors.{Violation, named, not_null}
use messenger_backend.Database.Tables.{
  Db, same_id, has_user, has_group, has_creator, same_user, same_username, same_friendship,
  same_token, same_group, same_membership, same_dm, same_group_message,
}
use messenger_backend.External.{External}

-- `NOW()` is the last argument of a statement that calls it.
pub data Statement : Type 0 where
  insert_user : User → Statement
  deactivate_user reactivate_user : Uuid → Statement
  change_password : String → Uuid → String → Statement
  send_friend_request accept_friend_request : Uuid → Uuid → Timestamp → Statement
  insert_access_token insert_refresh_token : Token → Statement
  revoke_access_token revoke_refresh_token : String → Statement
  revoke_all_user_access_tokens revoke_all_user_refresh_tokens : Uuid → Statement
  create_group : Group → Statement
  add_group_member : Membership → Statement
  send_dm : DirectMessage → Statement
  send_group_message : GroupMessage → Statement
  delete_user : Uuid → Statement
  remove_friendship : Uuid → Uuid → Statement
  expired_access_tokens expired_refresh_tokens : Timestamp → Statement
  delete_group : Uuid → Uuid → Statement
  remove_group_member : Uuid → Uuid → Statement

-- A command ends with its row count, or raises an error and changes nothing.
pub data Outcome : Type 0 where
  done : ℕ → Db → Outcome
  fails : Violation → Outcome

-- The constraints whose tests came out true, in the order of the list.
unfoldable pub violated : List (Bool × Constraint) → List Constraint
violated [] = []
violated ((b, c) ∷ tests) = let rest = violated tests in if b then c ∷ rest else rest

abbrev pub of_user : Uuid → User → Bool
of_user i u = u.user_id == i

abbrev pub of_token : String → Token → Bool
of_token h t = str_eq t.token_hash h

abbrev pub of_owner : Uuid → Token → Bool
of_owner i t = t.user_id == i

abbrev pub of_membership : Uuid → Uuid → Membership → Bool
of_membership g u m = (m.group_id == g) && (m.user_id == u)

-- From the one to the other: `requester_id = $1 AND addressee_id = $2`.
abbrev pub from_to : Uuid → Uuid → Friendship → Bool
from_to a b f = (f.requester_id == a) && (f.addressee_id == b)

abbrev pub between : Uuid → Uuid → Friendship → Bool
between a b f = from_to a b f || from_to b a f

abbrev pub is_stale : Timestamp → Token → Bool
is_stale now t = ltb t.expires_at now || t.is_revoked

abbrev pub group_of : Uuid → Uuid → Group → Bool
group_of i creator g = (g.group_id == i) && same_id g.created_by creator

abbrev pub deactivate : Bool → User → User
deactivate b u = record u { deactivated = b }

abbrev pub revoke : Token → Token
revoke t = record t { is_revoked = true }

-- `DELETE FROM users`: every table but `groups` cascades.
abbrev pub without_user : Uuid → Db → Db
without_user i db = record {
  users = keep (λ u. not (u.user_id == i)) db.users;
  friendships = keep (λ f. not ((f.requester_id == i) || (f.addressee_id == i))) db.friendships;
  access_tokens = keep (λ t. not (t.user_id == i)) db.access_tokens;
  refresh_tokens = keep (λ t. not (t.user_id == i)) db.refresh_tokens;
  groups = db.groups;
  memberships = keep (λ m. not (m.user_id == i)) db.memberships;
  direct_messages =
      keep (λ m. not ((m.sender_id == i) || (m.recipient_id == i))) db.direct_messages;
  group_messages = keep (λ m. not (m.sender_id == i)) db.group_messages;
}

-- `DELETE FROM groups` of the rows that the test selects, all with this key.
abbrev pub without_group : Uuid → Db → Db
without_group i db = record db {
  groups = keep (λ g. not (g.group_id == i)) db.groups;
  memberships = keep (λ m. not (m.group_id == i)) db.memberships;
  group_messages = keep (λ m. not (m.group_id == i)) db.group_messages;
}

module _ ⦃x : External⦄ where
  -- An INSERT of one row.
  unfoldable pub insert : List Constraint → Db → Outcome
  insert [] db = done 1 db
  insert (c ∷ cs) db = fails (named (x.report c cs))

  unfoldable pub execute : Statement → Db → Outcome
  execute (insert_user u) db =
      insert
        (violated (
          (any (same_user u) db.users, Constraint.pk_users)
          ∷ (any (same_username u) db.users, Constraint.uq_users_username)
          ∷ []))
        (record db { users = u ∷ db.users })
  execute (deactivate_user i) db =
      done (count (of_user i) db.users)
        (record db { users = update (of_user i) (deactivate true) db.users })
  execute (reactivate_user i) db =
      done (count (of_user i) db.users)
        (record db { users = update (of_user i) (deactivate false) db.users })
  execute (change_password new i old) db =
      let hit = λ (u : User). (u.user_id == i) && str_eq u.password_hash old && not u.deactivated in
      done (count hit db.users)
        (record db { users = update hit (λ u. record u { password_hash = new }) db.users })
  execute (send_friend_request a b now) db =
      let f : Friendship = record {
        requester_id = a;
        addressee_id = b;
        accepted = false;
        created_at = now;
        updated_at = now;
      } in
      insert
        (violated (
          (any (same_friendship f) db.friendships, Constraint.pk_friendships)
          ∷ (not (has_user db.users a), Constraint.fk_friendships_requester_id)
          ∷ (not (has_user db.users b), Constraint.fk_friendships_addressee_id)
          ∷ []))
        (record db { friendships = f ∷ db.friendships })
  execute (accept_friend_request a b now) db =
      done (count (from_to a b) db.friendships) (record db {
        friendships =
            update (from_to a b) (λ f. record f { accepted = true; updated_at = now })
              db.friendships;
      })
  execute (insert_access_token t) db =
      insert
        (violated (
          (any (same_token t) db.access_tokens, Constraint.pk_access_tokens)
          ∷ (not (has_user db.users t.user_id), Constraint.fk_access_tokens_user_id)
          ∷ []))
        (record db { access_tokens = t ∷ db.access_tokens })
  execute (insert_refresh_token t) db =
      insert
        (violated (
          (any (same_token t) db.refresh_tokens, Constraint.pk_refresh_tokens)
          ∷ (not (has_user db.users t.user_id), Constraint.fk_refresh_tokens_user_id)
          ∷ []))
        (record db { refresh_tokens = t ∷ db.refresh_tokens })
  execute (revoke_access_token h) db =
      done (count (of_token h) db.access_tokens)
        (record db { access_tokens = update (of_token h) revoke db.access_tokens })
  execute (revoke_refresh_token h) db =
      done (count (of_token h) db.refresh_tokens)
        (record db { refresh_tokens = update (of_token h) revoke db.refresh_tokens })
  execute (revoke_all_user_access_tokens i) db =
      done (count (of_owner i) db.access_tokens)
        (record db { access_tokens = update (of_owner i) revoke db.access_tokens })
  execute (revoke_all_user_refresh_tokens i) db =
      done (count (of_owner i) db.refresh_tokens)
        (record db { refresh_tokens = update (of_owner i) revoke db.refresh_tokens })
  execute (create_group g) db =
      if is_none g.created_by
      then fails not_null
      else insert
          (violated (
            (any (same_group g) db.groups, Constraint.pk_groups)
            ∷ (not (has_creator db.users g.created_by), Constraint.fk_groups_created_by)
            ∷ []))
          (record db { groups = g ∷ db.groups })
  execute (add_group_member m) db =
      insert
        (violated (
          (any (same_membership m) db.memberships, Constraint.pk_memberships)
          ∷ (not (has_group db.groups m.group_id), Constraint.fk_memberships_group_id)
          ∷ (not (has_user db.users m.user_id), Constraint.fk_memberships_user_id)
          ∷ []))
        (record db { memberships = m ∷ db.memberships })
  execute (send_dm m) db =
      insert
        (violated (
          (any (same_dm m) db.direct_messages, Constraint.pk_direct_messages)
          ∷ (not (has_user db.users m.sender_id), Constraint.fk_dm_sender_id)
          ∷ (not (has_user db.users m.recipient_id), Constraint.fk_dm_recipient_id)
          ∷ []))
        (record db { direct_messages = m ∷ db.direct_messages })
  execute (send_group_message m) db =
      insert
        (violated (
          (any (same_group_message m) db.group_messages, Constraint.pk_group_messages)
          ∷ (not (has_group db.groups m.group_id), Constraint.fk_group_messages_group_id)
          ∷ (not (has_user db.users m.sender_id), Constraint.fk_group_messages_sender_id)
          ∷ []))
        (record db { group_messages = m ∷ db.group_messages })
  -- `created_by` is NOT NULL, so its `ON DELETE SET NULL` fails.
  execute (delete_user i) db =
      if has_user db.users i && any (λ g. same_id g.created_by i) db.groups
      then fails not_null
      else done (count (of_user i) db.users) (if has_user db.users i then without_user i db else db)
  execute (remove_friendship a b) db =
      done (count (between a b) db.friendships)
        (record db { friendships = keep (λ f. not (between a b f)) db.friendships })
  execute (expired_access_tokens now) db =
      done (count (is_stale now) db.access_tokens)
        (record db { access_tokens = keep (λ t. not (is_stale now t)) db.access_tokens })
  execute (expired_refresh_tokens now) db =
      done (count (is_stale now) db.refresh_tokens)
        (record db { refresh_tokens = keep (λ t. not (is_stale now t)) db.refresh_tokens })
  execute (delete_group i creator) db =
      done (count (group_of i creator) db.groups)
        (if any (group_of i creator) db.groups then without_group i db else db)
  execute (remove_group_member g u) db =
      done (count (of_membership g u) db.memberships)
        (record db { memberships = keep (λ m. not (of_membership g u m)) db.memberships })
