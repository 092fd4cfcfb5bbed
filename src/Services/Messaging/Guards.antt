-- ===== src/Services/Messaging/Guards.antt =====
-- Who may send, src/services/messaging.py: friends to each other, members to their group.
use messenger_backend.Base.{
  ◌≡◌, true, false, none, some, List, [], ◌∷◌, arith, keep, All, All_at, Elem, Elem-keep,
  Option-cases, inl, inr, String,
}
use messenger_backend.Database.Models.{Uuid, Friendship, DirectMessage, GroupMessage, Membership}
use messenger_backend.Database.Errors.{uuid}
use messenger_backend.Database.Fetch
use messenger_backend.Database.Fetch.{friendship_status}
use messenger_backend.Database.Queries
use messenger_backend.Database.Queries.{run, found}
use messenger_backend.Database.Sql.{between, execute, insert, violated}
use messenger_backend.Effects.{World, ok, err, effects, service}
use messenger_backend.External.{External}
use messenger_backend.Services.Errors.{direct_message_not_allowed, group_message_not_allowed}
use messenger_backend.Services.Messaging.{send_direct_message, send_group_message}
use messenger_backend.Services.Request.{Request}
use messenger_backend.Services.Translation.{handle_db_constraint_error, handle_db_not_found_error}

carried : {a b : Friendship} (l : List Friendship) → a ≡ b → Elem a l → Elem b l
carried l e m = rw (← e) m

module _ ⦃x : External⦄ (req : Request) (sender_id : Uuid) (content : String) (w : World) where
  status_Elem :
      (a b : Uuid) {f : Friendship}
      → friendship_status a b w.db ≡ some f
      → Elem f (keep (between a b) w.db.friendships)
  unfolding friendship_status
  status_Elem a b h = picked (keep (between a b) w.db.friendships) h
    where
      picked : (l : List Friendship) {f : Friendship} → Fetch.pick_one l ≡ some f → Elem f l
      picked [] h = cc
      picked (g ∷ l) {f} h =
          carried {a = x.pick g l} {b = f} (g ∷ l) (ground arith) (x.pick_Elem g l)

  sent :
      (recipient_id : Uuid) {m : DirectMessage} {w' : World}
      → send_direct_message req sender_id recipient_id content w ≡ (ok m, w')
      → (f : Friendship) × (friendship_status sender_id recipient_id w.db ≡ some f)
        × (f.accepted ≡ true)
        × (w'.db ≡ record w.db { direct_messages = m ∷ w.db.direct_messages })
        × (m.sender_id ≡ sender_id)
        × (m.recipient_id ≡ recipient_id)
        × (m.content ≡ content)
  unfolding send_direct_message handle_db_constraint_error handle_db_not_found_error
      Queries.get_friendship_status Queries.send_direct_message run execute insert violated found
      effects
  sent recipient_id h = elim (Option-cases (friendship_status sender_id recipient_id w.db)) [
    | inl missing ↦ ground arith
    | inr (f, e) ↦ (f, e, ground arith, ground arith, ground arith, ground arith, ground arith)
  ]

  unfriendly :
      (recipient_id : Uuid) (f : Friendship)
      → friendship_status sender_id recipient_id w.db ≡ some f
      → f.accepted ≡ false
      → send_direct_message req sender_id recipient_id content w
        ≡ (err (service (direct_message_not_allowed (uuid recipient_id))), w)
  unfolding send_direct_message handle_db_constraint_error handle_db_not_found_error
      Queries.get_friendship_status found effects
  unfriendly recipient_id f e pending = ground arith

  strangers :
      (recipient_id : Uuid)
      → friendship_status sender_id recipient_id w.db ≡ none
      → send_direct_message req sender_id recipient_id content w
        ≡ (err (service (direct_message_not_allowed (uuid recipient_id))), w)
  unfolding send_direct_message handle_db_constraint_error handle_db_not_found_error
      Queries.get_friendship_status found effects
  strangers recipient_id e = ground arith

  -- A direct message that is sent is a new row with the given sender, recipient and content, nothing
  -- else of the tables changes, and there is an accepted friendship between the two.
  pub direct_message_needs_friendship :
      (recipient_id : Uuid) {m : DirectMessage} {w' : World}
      → send_direct_message req sender_id recipient_id content w ≡ (ok m, w')
      → ((f : Friendship) × Elem f w.db.friendships
          × (between sender_id recipient_id f ≡ true)
          × (f.accepted ≡ true))
        × (w'.db ≡ record w.db { direct_messages = m ∷ w.db.direct_messages })
        × (m.sender_id ≡ sender_id)
        × (m.recipient_id ≡ recipient_id)
        × (m.content ≡ content)
  direct_message_needs_friendship recipient_id h =
      let (f, e, a, d, s, r, c) = sent recipient_id h in
      let (there, joins) =
        Elem-keep (between sender_id recipient_id) w.db.friendships
          (status_Elem sender_id recipient_id e) in
      ((f, there, joins, a), d, s, r, c)

  -- Where every friendship row between the two is pending, or there is none, a direct message is
  -- refused with DirectMessageNotAllowedError, and nothing changes.
  pub direct_message_refused :
      (recipient_id : Uuid)
      → All (λ f. between sender_id recipient_id f ≡ true → f.accepted ≡ false) w.db.friendships
      → send_direct_message req sender_id recipient_id content w
        ≡ (err (service (direct_message_not_allowed (uuid recipient_id))), w)
  direct_message_refused recipient_id pending =
      elim (Option-cases (friendship_status sender_id recipient_id w.db)) [
        | inl missing ↦ strangers recipient_id missing
        | inr (f, e) ↦
            let (there, joins) =
              Elem-keep (between sender_id recipient_id) w.db.friendships
                (status_Elem sender_id recipient_id e) in
            unfriendly recipient_id f e (All_at _ w.db.friendships pending there joins)
      ]

  -- A group message of one who is no member of the group is refused with
  -- GroupMessageNotAllowedError, and nothing changes.
  pub group_message_refused :
      (group_id : Uuid)
      → Fetch.membership_by_ids group_id sender_id w.db ≡ none
      → send_group_message req sender_id group_id content w
        ≡ (err (service (group_message_not_allowed (uuid group_id))), w)
  unfolding send_group_message handle_db_constraint_error handle_db_not_found_error
      Queries.get_membership found effects
  group_message_refused group_id e = ground arith

  -- A group message that is sent is a new row with the given sender, group and content, nothing else
  -- of the tables changes, and the sender is a member of the group.
  pub group_message_needs_membership :
      (group_id : Uuid) {m : GroupMessage} {w' : World}
      → send_group_message req sender_id group_id content w ≡ (ok m, w')
      → ((p : Membership) × (Fetch.membership_by_ids group_id sender_id w.db ≡ some p))
        × (w'.db ≡ record w.db { group_messages = m ∷ w.db.group_messages })
        × (m.sender_id ≡ sender_id)
        × (m.group_id ≡ group_id)
        × (m.content ≡ content)
  unfolding send_group_message handle_db_constraint_error handle_db_not_found_error
      Queries.get_membership Queries.send_group_message run execute insert violated found effects
  group_message_needs_membership group_id h =
      elim (Option-cases (Fetch.membership_by_ids group_id sender_id w.db)) [
        | inl missing ↦ ground arith
        | inr p ↦ (p, ground arith, ground arith, ground arith, ground arith)
      ]
