-- ===== src/Services/Group/Permissions.antt =====
-- Who may change a group: `add_member`, `remove_member` and `delete_group` of src/services/group.py
-- on every branch.
use messenger_backend.Base.{
  ◌≡◌, refl, true, false, Option, none, some, List, [], ◌∷◌, ◌++◌, not, ◌||◌, ◌==◌, map, arith, any,
  keep, find, if◌then◌else◌, Option-cases, inl, inr, Bool-cases, count_is_zero, ==_iff, Distinct,
}
use messenger_backend.Database.Models
use messenger_backend.Database.Models.{Uuid, Membership}
use messenger_backend.Database.Errors.{uuid}
use messenger_backend.Database.Fetch
use messenger_backend.Database.Queries
use messenger_backend.Database.Queries.{run, found}
use messenger_backend.Database.Sql.{
  of_membership, group_of, without_group, execute, insert, violated,
}
use messenger_backend.Database.Tables.{same_id, same_group, IsConsistent}
use messenger_backend.Effects.{
  World, Result, ok, err, effects, service, push_group_membership_change,
  group_deletion_side_effects,
}
use messenger_backend.External.{External}
use messenger_backend.Redis.Events.{join, leave}
use messenger_backend.Services.Errors.{
  insufficient_group_permission, not_group_member, group_not_found,
}
use messenger_backend.Services.Group.{
  add_member, add_member_tx, remove_member, remove_member_tx, delete_group, delete_group_tx,
}
use messenger_backend.Services.Request.{Request}
use messenger_backend.Services.Translation.{handle_db_constraint_error, handle_db_not_found_error}

module _ ⦃x : External⦄ (actor_id group_id : Uuid) (w : World) where
  -- The worker after a member was removed.
  abbrev pub without_member : Uuid → World
  without_member target_user_id = record w {
    db = record w.db {
      memberships = keep (λ m. not (of_membership group_id target_user_id m)) w.db.memberships;
    };
    tasks = w.tasks ++ push_group_membership_change target_user_id group_id leave ∷ [];
  }

  abbrev pub removal : Uuid → Option Models.Group → Result (Unit {0}) × World
  removal target_user_id none = (err (service (group_not_found (uuid group_id))), w)
  removal target_user_id (some g) =
      if same_id g.created_by target_user_id
      then (
        err (
            service (
              insufficient_group_permission
                "Group creator cannot leave the group. Delete the group instead.")),
        w,
      )
      else if not ((actor_id == target_user_id) || same_id g.created_by actor_id)
      then (
        err (
            service
              (insufficient_group_permission "Only the group creator can remove other members.")),
        w,
      )
      else if any (of_membership group_id target_user_id) w.db.memberships
      then (ok tt, without_member target_user_id)
      else (err (service (not_group_member (uuid actor_id) (uuid group_id))), w)

  -- The removal of a member is refused where there is no such group, where the target is its creator,
  -- and where the actor is neither the target nor the creator. Otherwise it deletes the membership
  -- and spawns the task that announces it, or, where there is none, fails with an error that names
  -- the actor. A refusal or failure changes nothing.
  pub remove_member_outcome :
      (target_user_id : Uuid)
      → remove_member actor_id group_id target_user_id w
        ≡ removal target_user_id (Fetch.group_by_id group_id w.db)
  unfolding remove_member remove_member_tx handle_db_constraint_error handle_db_not_found_error
      Queries.get_group_by_id Queries.remove_group_member run execute found effects
  remove_member_outcome target_user_id = elim (Option-cases (Fetch.group_by_id group_id w.db)) [
    | inl missing ↦ ground arith
    | inr (g, e) ↦
        ground (arith, e, count_is_zero (of_membership group_id target_user_id) w.db.memberships)
  ]

  -- Only the creator adds members: an addition that returns has found a group that the actor created,
  -- adds a membership of the target, changes nothing else of the tables, and spawns the task that
  -- announces it.
  pub add_member_by_creator :
      (req : Request) (target_user_id : Uuid) {m : Membership} {w' : World}
      → add_member req actor_id group_id target_user_id w ≡ (ok m, w')
      → ((g : Models.Group) × (Fetch.group_by_id group_id w.db ≡ some g)
          × (same_id g.created_by actor_id ≡ true))
        × (m.group_id ≡ group_id)
        × (m.user_id ≡ target_user_id)
        × (w' ≡ record w {
          db = record w.db { memberships = m ∷ w.db.memberships };
          tasks = w.tasks ++ push_group_membership_change target_user_id group_id join ∷ [];
        })
  unfolding add_member add_member_tx handle_db_constraint_error handle_db_not_found_error
      Queries.get_group_by_id Queries.add_group_member run execute insert violated found effects
  add_member_by_creator req target_user_id h =
      elim (Option-cases (Fetch.group_by_id group_id w.db)) [
        | inl missing ↦ ground arith
        | inr (g, e) ↦ ((g, e, ground arith), ground arith, ground arith, ground arith)
      ]

  -- The worker after the group was deleted.
  abbrev pub after_deletion : World
  after_deletion = record w {
    db = without_group group_id w.db;
    tasks =
        w.tasks
        ++ group_deletion_side_effects group_id
            (map (λ m. m.user_id) (Fetch.list_group_memberships group_id w.db))
          ∷ [];
  }

  abbrev pub deletion : Option Models.Group → Result (Unit {0}) × World
  deletion none = (err (service (group_not_found (uuid group_id))), w)
  deletion (some g) = if same_id g.created_by actor_id then (ok tt, after_deletion) else (
    err (service (insufficient_group_permission "Only the group creator can delete this group.")),
    w,
  )

  absent :
      Fetch.group_by_id group_id w.db ≡ none
      → delete_group actor_id group_id w ≡ (err (service (group_not_found (uuid group_id))), w)
  unfolding delete_group delete_group_tx handle_db_constraint_error handle_db_not_found_error
      Queries.get_group_by_id found effects
  absent e = ground arith

  deletes :
      (g : Models.Group)
      → Fetch.group_by_id group_id w.db ≡ some g
      → any (group_of group_id actor_id) w.db.groups ≡ same_id g.created_by actor_id
      → delete_group actor_id group_id w ≡ deletion (some g)
  unfolding delete_group delete_group_tx handle_db_constraint_error handle_db_not_found_error
      Queries.get_group_by_id Queries.list_group_memberships Queries.delete_group run execute found
      effects
  deletes g e same = ground (arith, e, same, count_is_zero (group_of group_id actor_id) w.db.groups)

  no_other :
      (h : Models.Group) (l : List Models.Group)
      → h.group_id ≡ group_id
      → any (same_group h) l ≡ false
      → any (group_of group_id actor_id) l ≡ false
  no_other h [] e d = refl
  no_other h (g ∷ l) e d = ground (arith, no_other h l)

  pub only_row :
      (l : List Models.Group) {g : Models.Group}
      → Distinct same_group l
      → find (λ r. r.group_id == group_id) l ≡ some g
      → any (group_of group_id actor_id) l ≡ same_id g.created_by actor_id
  only_row [] d h = cc
  only_row (r ∷ l) {g} d h = elim (Bool-cases (r.group_id == group_id)) [
    | inl e ↦
        let none_left = no_other r l ((==_iff r.group_id group_id).0 e) d.0 in
        let same : r ≡ g = ground arith in rw (← same) (ground (arith, none_left))
    | inr e ↦ ground (arith, only_row l {g = g} d.1)
  ]

  -- In consistent tables, the deletion of a group is refused where there is no such group and where
  -- the actor is not its creator, and changes nothing then. Otherwise it deletes the group with its
  -- memberships and messages, and spawns the task that tells those who were its members.
  pub delete_group_outcome :
      IsConsistent w.db
      → delete_group actor_id group_id w ≡ deletion (Fetch.group_by_id group_id w.db)
  delete_group_outcome c = elim (Option-cases (Fetch.group_by_id group_id w.db)) [
    | inl missing ↦ rw missing (absent missing)
    | inr (g, e) ↦ rw e (deletes g e (only_row w.db.groups c.keys.groups e))
  ]
