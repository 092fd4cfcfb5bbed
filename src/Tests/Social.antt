-- ===== src/Tests/Social.antt =====
-- Witnesses on messages and groups.
use messenger_backend.Base.{
  ℕ, ◌≡◌, ◌≢◌, ◌≤◌, ◌↔◌, ◌⊎◌, inl, refl, true, some, All, Elem, List, [], ◌∷◌, ◌++◌, any, length,
  false, none,
}
use messenger_backend.Database.Fetch
use messenger_backend.Database.Fetch.{
  friendship_status, dm_conversation_history, group_messages_timeline, posted_before,
}
use messenger_backend.Database.Models.{Friendship, Membership}
use messenger_backend.Database.Models
use messenger_backend.Database.Queries
use messenger_backend.Database.Queries.{run, found}
use messenger_backend.Database.Sql.{between, execute, insert, violated}
use messenger_backend.Database.Tables.{same_id, has_group}
use messenger_backend.Effects.{
  Task, ok, effects, push_group_membership_change, group_deletion_side_effects, err, service,
}
use messenger_backend.External.{IsNewestFirst}
use messenger_backend.Redis.Events.{
  Payload, EventDict, join, to_dict, group_message_event, direct_message_event,
}
use messenger_backend.Redis.Presence.{GroupKeys}
use messenger_backend.Services.Group.{
  add_member, add_member_tx, remove_member, delete_group, delete_group_tx,
}
use messenger_backend.Services.Group.Deletion.{
  deletion_side_effects, IsUnrouted, deleted_group_unroutes,
}
use messenger_backend.Services.Group.Permissions.{
  remove_member_outcome, add_member_by_creator, removal,
}
use messenger_backend.Database.Errors
use messenger_backend.Services.Errors.{direct_message_not_allowed}
use messenger_backend.Services.Messaging.Guards.{direct_message_refused}
use messenger_backend.Services.Messaging.{send_direct_message, send_group_message, get_dm_history}
use messenger_backend.Services.Messaging.Completeness.{is_message, dm_history_complete}
use messenger_backend.Services.WebSocket.{
  Socket, Registry, no_connections, add_socket, merge_groups, sockets_of, members_of,
}
use messenger_backend.Services.WebSocket.Dispatch.{Sent, published, dispatch_local_message}
use messenger_backend.Services.WebSocket.Delivery.{group_message_reaches, direct_message_reaches}
use messenger_backend.Services.Messaging.History.{is_exchanged}
use messenger_backend.Services.Translation.{handle_db_constraint_error, handle_db_not_found_error}
use messenger_backend.Tests.Sample.{
  sample, request, tables, world, letter, post, member, club, tables-IsConsistent,
}

remove_member_outcome_example : remove_member 2 5 2 world ≡ removal 2 5 world 2 (some club)
remove_member_outcome_example = remove_member_outcome 2 5 world 2

adds :
    add_member request 1 5 3 world
    ≡ (ok (record (member 3) { joined_at = 10 }), (add_member request 1 5 3 world).1)
unfolding add_member add_member_tx handle_db_constraint_error handle_db_not_found_error
    Queries.get_group_by_id Queries.add_group_member run execute insert violated found effects
adds = refl

add_member_by_creator_example :
    ((g : Models.Group) × (Fetch.group_by_id 5 tables ≡ some g) × (same_id g.created_by 1 ≡ true))
    × (◌≡◌ {A = ℕ} 5 5)
    × (◌≡◌ {A = ℕ} 3 3)
    × ((add_member request 1 5 3 world).1 ≡ record world {
      db = record tables {
        memberships = record (member 3) { joined_at = 10 } ∷ tables.memberships;
      };
      tasks = push_group_membership_change 3 5 join ∷ [];
    })
add_member_by_creator_example = add_member_by_creator 1 5 world request 3 adds

sends :
    send_direct_message request 1 2 "hello" world
    ≡ (ok (letter 7 1 2 10), (send_direct_message request 1 2 "hello" world).1)
unfolding send_direct_message handle_db_constraint_error handle_db_not_found_error friendship_status
    Queries.get_friendship_status Queries.send_direct_message run execute insert violated found
    effects
sends = refl

posts :
    send_group_message request 2 5 "hi" world
    ≡ (ok (post 7 2 10), (send_group_message request 2 5 "hi" world).1)
unfolding send_group_message handle_db_constraint_error handle_db_not_found_error
    Queries.get_membership Queries.send_group_message run execute insert violated found effects
posts = refl

reads :
    get_dm_history request 1 2 none 2 world ≡ (ok (letter 23 1 2 5 ∷ letter 22 2 1 4 ∷ []), world)
unfolding get_dm_history handle_db_constraint_error handle_db_not_found_error friendship_status
    dm_conversation_history Queries.get_friendship_status Queries.get_dm_conversation_history found
    effects
reads = refl

dm_history_complete_example :
    ((2 ≤ 2)
      × All (λ m. is_exchanged 1 2 10 m ≡ true) (letter 23 1 2 5 ∷ letter 22 2 1 4 ∷ [])
      × IsNewestFirst (λ m. m.created_at) (letter 23 1 2 5 ∷ letter 22 2 1 4 ∷ [])
      × (world ≡ world))
    × ((any (is_message (letter 21 1 2 3)) (letter 23 1 2 5 ∷ letter 22 2 1 4 ∷ []) ≡ true)
        ⊎ ((length (letter 23 1 2 5 ∷ letter 22 2 1 4 ∷ []) ≡ 2)
            × All (λ r. 3 ≤ r.created_at) (letter 23 1 2 5 ∷ letter 22 2 1 4 ∷ [])))
dm_history_complete_example =
    dm_history_complete request 1 world none 2 2 (letter 21 1 2 3) reads (inl refl) refl

abbrev connections : Registry
connections = merge_groups 2 11 (5 ∷ []) (add_socket 2 11 no_connections)

group_message_reaches_example :
    ((p : Membership) × (Fetch.membership_by_ids 5 2 tables ≡ some p))
    × ((send_group_message request 2 5 "hi" world).1.db
        ≡ record tables { group_messages = post 7 2 10 ∷ tables.group_messages })
    × (t : Task) × ((send_group_message request 2 5 "hi" world).1.tasks ≡ [] ++ t ∷ [])
    × ((sent : List Sent) × (dispatch_local_message (published t) connections
          ≡ some (sent, connections))
        × ((ws : Socket) (f : EventDict)
            → Elem {A = Sent} (ws, f) sent ↔ (
                (f ≡ to_dict (group_message_event (post 7 2 10)))
                × ((u : ℕ) × (Elem u (members_of 5 connections) × (u ≢ 2))
                    × Elem ws (sockets_of u connections)))))
group_message_reaches_example = group_message_reaches request 2 "hi" world 5 connections posts

-- Alice deletes the club; no key of Redis is about it.
deletes : delete_group 1 5 world ≡ (ok tt, (delete_group 1 5 world).1)
unfolding delete_group delete_group_tx handle_db_constraint_error handle_db_not_found_error
    Queries.get_group_by_id Queries.list_group_memberships Queries.delete_group run execute found
    effects
deletes = refl

abbrev no_keys : GroupKeys
no_keys = record { groups = []; user_groups = λ _. none }

deleted_group_unroutes_example :
    (has_group (delete_group 1 5 world).1.db.groups 5 ≡ false)
    × (member_ids : List ℕ) × ((delete_group 1 5 world).1.tasks
        ≡ [] ++ group_deletion_side_effects 5 member_ids ∷ [])
    × (p : Payload) × ((deletion_side_effects none none 5 member_ids no_keys).0 ≡ some p)
    × IsUnrouted 5 p connections
deleted_group_unroutes_example =
    deleted_group_unroutes 1 5 world no_keys connections tables-IsConsistent deletes

direct_message_reaches_example :
    ((a : Friendship) × Elem a tables.friendships × (between 1 2 a ≡ true) × (a.accepted ≡ true))
    × ((send_direct_message request 1 2 "hello" world).1.db
        ≡ record tables { direct_messages = letter 7 1 2 10 ∷ tables.direct_messages })
    × (t : Task) × ((send_direct_message request 1 2 "hello" world).1.tasks ≡ [] ++ t ∷ [])
    × ((sent : List Sent) × (dispatch_local_message (published t) connections
          ≡ some (sent, connections))
        × ((ws : Socket) (f : EventDict)
            → Elem {A = Sent} (ws, f) sent ↔ (
                (f ≡ to_dict (direct_message_event (letter 7 1 2 10)))
                × Elem ws (sockets_of 2 connections))))
direct_message_reaches_example = direct_message_reaches request 1 "hello" world 2 connections sends

direct_message_refused_example :
    send_direct_message request 1 3 "hello" world
    ≡ (err (service (direct_message_not_allowed (Errors.uuid 3))), world)
direct_message_refused_example =
    direct_message_refused request 1 "hello" world 3 ((λ m. cc), ((λ m. refl), tt))
