-- ===== src/Database/Fetch.antt =====
-- The queries of src/database/sql.py, class Fetch, on the tables.
use messenger_backend.Base.{
  ℕ, zero, suc, String, Bool, Option, none, some, List, [], ◌∷◌, ◌++◌, not, ◌&&◌, ◌==◌, ltb, str_eq,
  find, any, keep,
}
use messenger_backend.Database.Models.{
  Uuid, Timestamp, User, Friendship, Token, Group, Membership, DirectMessage, GroupMessage,
}
use messenger_backend.Database.Tables.{Db}
use messenger_backend.Database.Sql.{of_user, of_token, of_membership, between}
use messenger_backend.External.{External}

abbrev pub user_by_id : Uuid → Db → Option User
user_by_id i db = find (of_user i) db.users

abbrev pub user_by_username : String → Db → Option User
user_by_username name db = find (λ u. str_eq u.username name) db.users

abbrev pub access_token : String → Db → Option Token
access_token h db = find (of_token h) db.access_tokens

abbrev pub refresh_token : String → Db → Option Token
refresh_token h db = find (of_token h) db.refresh_tokens

abbrev pub list_accepted_friends : Uuid → Db → List Friendship
list_accepted_friends i db =
    keep (λ f. (f.requester_id == i) && f.accepted) db.friendships
    ++ keep (λ f. (f.addressee_id == i) && f.accepted) db.friendships

abbrev pub list_pending_requests : Uuid → Db → List Friendship
list_pending_requests i db = keep (λ f. (f.addressee_id == i) && not f.accepted) db.friendships

abbrev pub group_by_id : Uuid → Db → Option Group
group_by_id i db = find (λ g. g.group_id == i) db.groups

-- Of a group there is one membership of the user at most, by the primary key.
abbrev pub list_user_groups : Uuid → Db → List Group
list_user_groups i db = keep (λ g. any (of_membership g.group_id i) db.memberships) db.groups

abbrev pub list_group_memberships : Uuid → Db → List Membership
list_group_memberships g db = keep (λ m. m.group_id == g) db.memberships

abbrev pub membership_by_ids : Uuid → Uuid → Db → Option Membership
membership_by_ids g u db = find (of_membership g u) db.memberships

-- `LIMIT n`.
abbrev pub take : {A : Type 0} → ℕ → List A → List A
take zero l = []
take (suc n) [] = []
take (suc n) (x ∷ l) = x ∷ take n l

abbrev pub sent_before : Uuid → Uuid → Timestamp → DirectMessage → Bool
sent_before a b before m = (m.sender_id == a) && (m.recipient_id == b) && ltb m.created_at before

abbrev pub posted_before : Uuid → Timestamp → GroupMessage → Bool
posted_before g before m = (m.group_id == g) && ltb m.created_at before

module _ ⦃x : External⦄ where
  abbrev pub pick_one : List Friendship → Option Friendship
  pick_one [] = none
  pick_one (f ∷ fs) = some (x.pick f fs)

  unfoldable pub friendship_status : Uuid → Uuid → Db → Option Friendship
  friendship_status a b db = pick_one (keep (between a b) db.friendships)

  unfoldable pub dm_conversation_history : Uuid → Uuid → Timestamp → ℕ → Db → List DirectMessage
  dm_conversation_history a b before limit db = take limit (
      x.order_dms (
        take limit (x.order_dms (keep (sent_before a b before) db.direct_messages))
        ++ take limit (x.order_dms (keep (sent_before b a before) db.direct_messages))))

  unfoldable pub group_messages_timeline : Uuid → Timestamp → ℕ → Db → List GroupMessage
  group_messages_timeline g before limit db =
      take limit (x.order_group_messages (keep (posted_before g before) db.group_messages))
