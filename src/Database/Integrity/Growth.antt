-- ===== src/Database/Integrity/Growth.antt =====
-- References survive where the referenced keys do.
use messenger_backend.Base.{◌≡◌, true, none, some, List, All-imp, Option}
use messenger_backend.Database.Models.{Uuid, User}
use messenger_backend.Database.Tables.{Db, has_user, has_creator, HasReferences}

has_creator_mono :
    (us us' : List User)
    → ((i : Uuid) → has_user us i ≡ true → has_user us' i ≡ true)
    → (o : Option Uuid) → has_creator us o ≡ true
    → has_creator us' o ≡ true
has_creator_mono us us' mono none h = h
has_creator_mono us us' mono (some i) h = mono i h

module _ (db : Db) (refs : HasReferences db) where
  -- With more users, or other users under the same keys.
  pub HasReferences-users :
      (us' : List User)
      → ((i : Uuid) → has_user db.users i ≡ true → has_user us' i ≡ true)
      → HasReferences (record db { users = us' })
  HasReferences-users us' mono = record {
    requesters = All-imp _ _ (λ f. mono f.requester_id) db.friendships refs.requesters;
    addressees = All-imp _ _ (λ f. mono f.addressee_id) db.friendships refs.addressees;
    access_users = All-imp _ _ (λ t. mono t.user_id) db.access_tokens refs.access_users;
    refresh_users = All-imp _ _ (λ t. mono t.user_id) db.refresh_tokens refs.refresh_users;
    creators =
        All-imp _ _ (λ g. has_creator_mono db.users us' mono g.created_by) db.groups refs.creators;
    member_groups = refs.member_groups;
    member_users = All-imp _ _ (λ m. mono m.user_id) db.memberships refs.member_users;
    senders = All-imp _ _ (λ m. mono m.sender_id) db.direct_messages refs.senders;
    recipients = All-imp _ _ (λ m. mono m.recipient_id) db.direct_messages refs.recipients;
    message_groups = refs.message_groups;
    message_senders = All-imp _ _ (λ m. mono m.sender_id) db.group_messages refs.message_senders;
  }
