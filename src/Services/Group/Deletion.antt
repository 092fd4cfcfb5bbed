-- ===== src/Services/Group/Deletion.antt =====
-- What comes after the deletion of a group: `_handle_group_deletion_side_effects` of
-- src/services/group.py, the push of src/services/websocket.py, and the workers that receive it.
use messenger_backend.Base.{
  ◌≡◌, refl, sym, ap, ◌∙◌, ◌↔◌, false, Option, none, some, List, [], ◌∷◌, ◌++◌, ◌==◌, not, Elem,
  is_in, map, arith, Bool-cases, inl, inr, keep,
}
use messenger_backend.Database.Models
use messenger_backend.Database.Models.{Uuid}
use messenger_backend.Database.Fetch
use messenger_backend.Database.Tables.{IsConsistent, has_group, same_id}
use messenger_backend.Effects.{World, ok, RedisFault, group_deletion_side_effects}
use messenger_backend.External.{External}
use messenger_backend.Redis.Events.{EventDict, Payload, group_deleted_event, to_dict}
use messenger_backend.Redis.Presence.{GroupKeys, invalidate_deleted_group_cache}
use messenger_backend.Services.Group.{delete_group}
use messenger_backend.Services.Group.Permissions.{deletion, after_deletion, delete_group_outcome}
use messenger_backend.Services.WebSocket.{Socket, Registry, members_of, remove_group}
use messenger_backend.Services.WebSocket.Dispatch.{
  Sent, unrouted, send_frame_to_users, handle_group_deleted, dispatch_local_message,
}
use messenger_backend.Services.WebSocket.Delivery.Frames.{Receives, Elem-send}

-- How the clean-up and the publication end: by a RedisError, or not. The clean-up comes first, and
-- what it raises ends the coroutine. The result is the payload that is published, with the keys.
unfoldable pub deletion_side_effects :
    Option RedisFault
    → Option RedisFault
    → Uuid
    → List Uuid
    → GroupKeys
    → Option Payload × GroupKeys
deletion_side_effects (some fault) publishing group_id member_ids k = (none, k)
deletion_side_effects none (some fault) group_id member_ids k =
    (none, invalidate_deleted_group_cache group_id member_ids k)
deletion_side_effects none none group_id member_ids k = (
  some (unrouted (group_deleted_event group_id)),
  invalidate_deleted_group_cache group_id member_ids k,
)

-- A worker that receives the payload tells the open sockets of the routed members, and no other, and
-- routes no message of the group any more, while the routes of the other groups stay.
abbrev pub IsUnrouted : Uuid → Payload → Registry → Type 0
IsUnrouted g p r =
    (sent : List Sent) × (after : Registry) × (dispatch_local_message p r ≡ some (sent, after))
    × ((u : Uuid) → is_in g u after.group_connections ≡ false)
    × ((h u : Uuid)
        → (h == g) ≡ false
        → is_in h u after.group_connections ≡ is_in h u r.group_connections)
    × ((ws : Socket) (f : EventDict)
        → Elem {A = Sent} (ws, f) sent
          ↔ Receives (members_of g r) (to_dict (group_deleted_event g)) r ws f)

deleted-IsUnrouted : (g : Uuid) (r : Registry) → IsUnrouted g (unrouted (group_deleted_event g)) r
unfolding dispatch_local_message handle_group_deleted remove_group
deleted-IsUnrouted g r = (
  send_frame_to_users (members_of g r) (to_dict (group_deleted_event g)) r,
  remove_group g (members_of g r) r,
  refl,
  (λ u. ground arith),
  (λ h u other. ground (arith, other)),
  (λ ws f. Elem-send (members_of g r) f (to_dict (group_deleted_event g)) ws r),
)

none_left :
    (g : Uuid) (l : List Models.Group) → has_group (keep (λ a. not (a.group_id == g)) l) g ≡ false
none_left g [] = refl
none_left g (a ∷ l) = ground (arith, none_left g l)

module _ ⦃x : External⦄ (actor_id g : Uuid) (w : World) where
  returned :
      (o : Option Models.Group) {w' : World}
      → deletion actor_id g w o ≡ (ok tt, w')
      → w' ≡ after_deletion actor_id g w
  returned none e = cc
  returned (some a) e = elim (Bool-cases (same_id a.created_by actor_id)) [
    | inl creator ↦ ground (arith, rw creator at e)
    | inr other ↦ absurd (cc (rw other at e))
  ]

  -- In consistent tables, when the deletion of a group returns, the group is gone from the tables, and
  -- the one task that the call spawns, run where Redis fails no command, publishes a payload. A worker
  -- that receives it tells the open sockets of the members that it routes the group to, and no other
  -- socket, routes the group to nobody afterwards, and keeps the routes of all other groups.
  pub deleted_group_unroutes :
      {w' : World} (k : GroupKeys) (r : Registry)
      → IsConsistent w.db
      → delete_group actor_id g w ≡ (ok tt, w')
      → (has_group w'.db.groups g ≡ false)
        × (member_ids : List Uuid) × (w'.tasks
            ≡ w.tasks ++ group_deletion_side_effects g member_ids ∷ [])
        × (p : Payload) × ((deletion_side_effects none none g member_ids k).0 ≡ some p)
        × IsUnrouted g p r
  unfolding deletion_side_effects
  deleted_group_unroutes k r c h =
      let e = returned (Fetch.group_by_id g w.db) (sym (delete_group_outcome actor_id g w c) ∙ h) in
      (
        rw e (none_left g w.db.groups),
        map (λ m. m.user_id) (Fetch.list_group_memberships g w.db),
        ap (λ v. v.tasks) e,
        unrouted (group_deleted_event g),
        refl,
        deleted-IsUnrouted g r,
      )
