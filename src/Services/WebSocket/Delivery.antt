-- ===== src/Services/WebSocket/Delivery.antt =====
-- From a service call to the sockets: what the tasks of src/services/messaging.py and
-- src/services/group.py publish, and what src/services/websocket.py makes of it on a worker.
pub mod Frames
use messenger_backend.Base.{
  true, ℕ, String, ◌≡◌, ◌≢◌, ◌↔◌, ◌⊎◌, inl, inr, refl, ap, false, some, List, [], ◌∷◌, ◌++◌, map,
  ◌==◌, ==_iff, keep, Elem, Elem-keep, Bool-cases, arith,
}
use messenger_backend.Database.Fetch
use messenger_backend.Database.Models.{Uuid, Friendship, Membership, GroupMessage, DirectMessage}
use messenger_backend.Database.Queries
use messenger_backend.Database.Queries.{run, found}
use messenger_backend.Database.Sql.{between, execute, insert, violated}
use messenger_backend.Effects.{
  World, ok, effects, Task, push_group_membership_change, push_to_user, push_to_group,
}
use messenger_backend.External.{External}
use messenger_backend.Redis.Events.{
  EventDict, MembershipAction, join, leave, group_message_event, direct_message_event,
  group_membership_event, to_dict,
}
use messenger_backend.Services.Messaging.{send_direct_message, send_group_message}
use messenger_backend.Services.Messaging.Guards.{
  direct_message_needs_friendship, group_message_needs_membership,
}
use messenger_backend.Services.Request.{Request}
use messenger_backend.Services.Translation.{handle_db_constraint_error, handle_db_not_found_error}
use messenger_backend.Services.WebSocket.{
  Socket, Registry, sockets_of, members_of, change_membership,
}
use messenger_backend.Services.WebSocket.Dispatch.{
  Sent, published, send_frame_to_user_sockets, send_frame_to_users, is_other,
  handle_membership_change, dispatch_group_message, dispatch_routed, dispatch_local_message,
}
use messenger_backend.Services.WebSocket.Delivery.Frames.{
  Elem-frames, Receives, Elem-send, Elem-kept_others,
}

module _ ⦃x : External⦄ (req : Request) (sender_id : Uuid) (content : String) (w : World) where
  group_task :
      (group_id : Uuid) {m : GroupMessage} {w' : World}
      → send_group_message req sender_id group_id content w ≡ (ok m, w')
      → w'.tasks ≡ w.tasks ++ push_to_group group_id (group_message_event m) (some sender_id) ∷ []
  unfolding send_group_message handle_db_constraint_error handle_db_not_found_error
      Queries.get_membership Queries.send_group_message run execute insert violated found effects
  group_task group_id h = ground arith

  direct_task :
      (recipient_id : Uuid) {m : DirectMessage} {w' : World}
      → send_direct_message req sender_id recipient_id content w ≡ (ok m, w')
      → w'.tasks ≡ w.tasks ++ push_to_user recipient_id (direct_message_event m) ∷ []
  unfolding send_direct_message handle_db_constraint_error handle_db_not_found_error
      Queries.get_friendship_status Queries.send_direct_message run execute insert violated found
      effects
  direct_task recipient_id h = ground arith

  group_dispatch :
      (group_id : Uuid) (m : GroupMessage) (r : Registry)
      → dispatch_local_message
          (published (push_to_group group_id (group_message_event m) (some sender_id)))
          r
        ≡ some (
          send_frame_to_users
              (keep (is_other (some sender_id)) (members_of group_id r))
              (to_dict (group_message_event m))
              r,
          r,
        )
  unfolding dispatch_local_message dispatch_group_message
  group_dispatch group_id m r = refl

  direct_dispatch :
      (recipient_id : Uuid) (m : DirectMessage) (r : Registry)
      → dispatch_local_message (published (push_to_user recipient_id (direct_message_event m))) r
        ≡ some (send_frame_to_user_sockets recipient_id (to_dict (direct_message_event m)) r, r)
  unfolding dispatch_local_message dispatch_routed
  direct_dispatch recipient_id m r = refl

  -- A group message that is sent comes from a member of the group, is one new row of the tables, and
  -- reaches the others: the task that the call spawns publishes a payload that a worker dispatches
  -- without changing its registries, and the frames it sends are the dictionary of the message, to
  -- every open socket of every routed member of the group but the sender, and to no other socket.
  pub group_message_reaches :
      (group_id : Uuid) {m : GroupMessage} {w' : World} (r : Registry)
      → send_group_message req sender_id group_id content w ≡ (ok m, w')
      → ((p : Membership) × (Fetch.membership_by_ids group_id sender_id w.db ≡ some p))
        × (w'.db ≡ record w.db { group_messages = m ∷ w.db.group_messages })
        × (t : Task) × (w'.tasks ≡ w.tasks ++ t ∷ [])
        × ((sent : List Sent) × (dispatch_local_message (published t) r ≡ some (sent, r))
            × ((ws : Socket) (f : EventDict)
                → Elem {A = Sent} (ws, f) sent ↔ (
                    (f ≡ to_dict (group_message_event m))
                    × ((u : Uuid) × (Elem u (members_of group_id r) × (u ≢ sender_id))
                        × Elem ws (sockets_of u r)))))
  group_message_reaches group_id {m} r h =
      let us = keep (is_other (some sender_id)) (members_of group_id r) in
      let d = to_dict (group_message_event m) in
      let (member, row, _, _, _) =
        group_message_needs_membership req sender_id content w group_id h in
      (
        member,
        row,
        push_to_group group_id (group_message_event m) (some sender_id),
        group_task group_id h,
        (
          send_frame_to_users us d r,
          group_dispatch group_id m r,
          λ ws f. (
            (λ e.
                let (same, s) = (Elem-send us f d ws r).0 e in
                let (u, k, y) = s in
                (same, (u, (Elem-kept_others sender_id u (members_of group_id r)).0 k, y))),
            λ e.
                let (u, k, y) = e.1 in
                (Elem-send us f d ws r).1
                  (e.0, (u, (Elem-kept_others sender_id u (members_of group_id r)).1 k, y)),
          ),
        ),
      )

  -- A direct message that is sent is one new row of the tables, between users with an accepted
  -- friendship, and reaches the recipient: the task that the call spawns publishes a payload that a
  -- worker dispatches without changing its registries, and the frames it sends are the dictionary of
  -- the message, to every open socket of the recipient and to no other socket.
  pub direct_message_reaches :
      (recipient_id : Uuid) {m : DirectMessage} {w' : World} (r : Registry)
      → send_direct_message req sender_id recipient_id content w ≡ (ok m, w')
      → ((a : Friendship) × Elem a w.db.friendships
          × (between sender_id recipient_id a ≡ true)
          × (a.accepted ≡ true))
        × (w'.db ≡ record w.db { direct_messages = m ∷ w.db.direct_messages })
        × (t : Task) × (w'.tasks ≡ w.tasks ++ t ∷ [])
        × ((sent : List Sent) × (dispatch_local_message (published t) r ≡ some (sent, r))
            × ((ws : Socket) (f : EventDict)
                → Elem {A = Sent} (ws, f) sent
                  ↔ ((f ≡ to_dict (direct_message_event m)) × Elem ws (sockets_of recipient_id r))))
  unfolding send_frame_to_user_sockets
  direct_message_reaches recipient_id {m} r h =
      let (friends, row, _, _, _) =
        direct_message_needs_friendship req sender_id content w recipient_id h in
      (
        friends,
        row,
        push_to_user recipient_id (direct_message_event m),
        direct_task recipient_id h,
        (
          send_frame_to_user_sockets recipient_id (to_dict (direct_message_event m)) r,
          direct_dispatch recipient_id m r,
          λ ws f. Elem-frames f (to_dict (direct_message_event m)) ws (sockets_of recipient_id r),
        ),
      )

-- A membership change that a service publishes is the change that every worker makes: the payload of
-- the task is read back as the same action, user and group, and the user's sockets that are open then
-- are told of it.
pub membership_change_roundtrip :
    (a : MembershipAction) (u g : Uuid) (r : Registry)
    → dispatch_local_message (published (push_group_membership_change u g a)) r
      ≡ some (
        send_frame_to_user_sockets u
            (to_dict (group_membership_event a u g))
            (change_membership a u g r),
        change_membership a u g r,
      )
unfolding dispatch_local_message handle_membership_change
membership_change_roundtrip join u g r = refl
membership_change_roundtrip leave u g r = refl
