-- ===== src/Database/Integrity/Deletes.antt =====
-- A DELETE with its cascades keeps the schema's integrity.
use messenger_backend.Base.{
  ◌≡◌, true, false, Bool, List, not, ◌==◌, ◌∷◌, [], arith, All, any, All-keep, All-keep_imp,
  Distinct-keep, any-keep, Option, none, some, keep,
}
use messenger_backend.Database.Models.{Uuid, Friendship, Token, Group, Membership, GroupMessage}
use messenger_backend.Database.Tables.{Db, has_user, has_group, has_creator, same_id, IsConsistent}
use messenger_backend.Database.Sql.{without_user, without_group}

module _ (db : Db) (c : IsConsistent db) where
  -- Another user than the deleted one stays.
  other_user :
      (i j : Uuid)
      → has_user db.users j ≡ true
      → not (j == i) ≡ true
      → has_user (keep (λ u. not (u.user_id == i)) db.users) j ≡ true
  other_user i j m ne =
      any-keep (λ u. not (u.user_id == i)) (λ u. u.user_id == j) (λ u e. ground arith) db.users m

  other_creator :
      (i : Uuid) (o : Option Uuid)
      → has_creator db.users o ≡ true
      → same_id o i ≡ false
      → has_creator (keep (λ u. not (u.user_id == i)) db.users) o ≡ true
  other_creator i none m ne = m
  other_creator i (some j) m ne = other_user i j m (ground arith)

  creators_stay :
      (i : Uuid) (l : List Group)
      → any (λ g. same_id g.created_by i) l ≡ false
      → All (λ g. has_creator db.users g.created_by ≡ true) l
      → All (λ g. has_creator (keep (λ u. not (u.user_id == i)) db.users) g.created_by ≡ true) l
  creators_stay i [] e h = h
  creators_stay i (g ∷ l) e h =
      (other_creator i g.created_by h.0 (ground arith), creators_stay i l (ground arith) h.1)

  -- The user has no groups, so the tables lose every row that names him.
  pub without_user-IsConsistent :
      (i : Uuid)
      → any (λ g. same_id g.created_by i) db.groups ≡ false
      → IsConsistent (without_user i db)
  without_user-IsConsistent i no_groups = record {
    keys = record {
      users = Distinct-keep _ _ db.users c.keys.users;
      usernames = Distinct-keep _ _ db.users c.keys.usernames;
      friendships = Distinct-keep _ _ db.friendships c.keys.friendships;
      access_tokens = Distinct-keep _ _ db.access_tokens c.keys.access_tokens;
      refresh_tokens = Distinct-keep _ _ db.refresh_tokens c.keys.refresh_tokens;
      groups = c.keys.groups;
      memberships = Distinct-keep _ _ db.memberships c.keys.memberships;
      direct_messages = Distinct-keep _ _ db.direct_messages c.keys.direct_messages;
      group_messages = Distinct-keep _ _ db.group_messages c.keys.group_messages;
    };
    references = record {
      requesters =
          All-keep_imp _ _ _ (λ f m p. other_user i f.requester_id m (ground arith)) db.friendships
            c.references.requesters;
      addressees =
          All-keep_imp _ _ _ (λ f m p. other_user i f.addressee_id m (ground arith)) db.friendships
            c.references.addressees;
      access_users =
          All-keep_imp _ _ _ (λ t m p. other_user i t.user_id m p) db.access_tokens
            c.references.access_users;
      refresh_users =
          All-keep_imp _ _ _ (λ t m p. other_user i t.user_id m p) db.refresh_tokens
            c.references.refresh_users;
      creators = creators_stay i db.groups no_groups c.references.creators;
      member_groups = All-keep _ _ db.memberships c.references.member_groups;
      member_users =
          All-keep_imp _ _ _ (λ t m p. other_user i t.user_id m p) db.memberships
            c.references.member_users;
      senders =
          All-keep_imp _ _ _ (λ t m p. other_user i t.sender_id m (ground arith)) db.direct_messages
            c.references.senders;
      recipients =
          All-keep_imp _ _ _ (λ t m p. other_user i t.recipient_id m (ground arith))
            db.direct_messages c.references.recipients;
      message_groups = All-keep _ _ db.group_messages c.references.message_groups;
      message_senders =
          All-keep_imp _ _ _ (λ t m p. other_user i t.sender_id m p) db.group_messages
            c.references.message_senders;
    };
  }

  other_group :
      (i j : Uuid)
      → has_group db.groups j ≡ true
      → not (j == i) ≡ true
      → has_group (keep (λ g. not (g.group_id == i)) db.groups) j ≡ true
  other_group i j m ne =
      any-keep (λ g. not (g.group_id == i)) (λ g. g.group_id == j) (λ g e. ground arith) db.groups m

  pub without_group-IsConsistent : (i : Uuid) → IsConsistent (without_group i db)
  without_group-IsConsistent i = assumption (
    Distinct-keep (λ (g : Group). not (g.group_id == i)) _ db.groups c.keys.groups,
    Distinct-keep (λ (m : Membership). not (m.group_id == i)) _ db.memberships c.keys.memberships,
    Distinct-keep (λ (m : GroupMessage). not (m.group_id == i)) _ db.group_messages
        c.keys.group_messages,
    All-keep (λ (g : Group). not (g.group_id == i)) _ db.groups c.references.creators,
    All-keep (λ (m : Membership). not (m.group_id == i)) _ db.memberships c.references.member_users,
    All-keep (λ (m : GroupMessage). not (m.group_id == i)) _ db.group_messages
        c.references.message_senders,
    All-keep_imp (λ (m : Membership). not (m.group_id == i)) _
        (λ m. has_group (keep (λ g. not (g.group_id == i)) db.groups) m.group_id ≡ true)
        (λ m h p. other_group i m.group_id h p) db.memberships c.references.member_groups,
    All-keep_imp (λ (m : GroupMessage). not (m.group_id == i)) _
        (λ m. has_group (keep (λ g. not (g.group_id == i)) db.groups) m.group_id ≡ true)
        (λ m h p. other_group i m.group_id h p) db.group_messages c.references.message_groups,
  )

  -- The other tables are referenced by none.
  pub keep_friendships-IsConsistent :
      (p : Friendship → Bool) → IsConsistent (record db { friendships = keep p db.friendships })
  keep_friendships-IsConsistent p = assumption (
    Distinct-keep p _ db.friendships c.keys.friendships,
    All-keep p _ db.friendships c.references.requesters,
    All-keep p _ db.friendships c.references.addressees,
  )

  pub keep_access_tokens-IsConsistent :
      (p : Token → Bool) → IsConsistent (record db { access_tokens = keep p db.access_tokens })
  keep_access_tokens-IsConsistent p = assumption (
    Distinct-keep p _ db.access_tokens c.keys.access_tokens,
    All-keep p _ db.access_tokens c.references.access_users,
  )

  pub keep_refresh_tokens-IsConsistent :
      (p : Token → Bool) → IsConsistent (record db { refresh_tokens = keep p db.refresh_tokens })
  keep_refresh_tokens-IsConsistent p = assumption (
    Distinct-keep p _ db.refresh_tokens c.keys.refresh_tokens,
    All-keep p _ db.refresh_tokens c.references.refresh_users,
  )

  pub keep_memberships-IsConsistent :
      (p : Membership → Bool) → IsConsistent (record db { memberships = keep p db.memberships })
  keep_memberships-IsConsistent p = assumption (
    Distinct-keep p _ db.memberships c.keys.memberships,
    All-keep p _ db.memberships c.references.member_groups,
    All-keep p _ db.memberships c.references.member_users,
  )
