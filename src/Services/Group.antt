-- ===== src/Services/Group.antt =====
-- GroupService of src/services/group.py, with the keyword arguments that the routers of
-- src/api/routers/group.py pass.
pub mod Permissions
pub mod Creators
pub mod Deletion
use messenger_backend.Base.{String, [], ◌∷◌, ◌==◌, not, ◌||◌, List, some, map}
use messenger_backend.Database.Models
use messenger_backend.Database.Models.{Uuid, Membership}
use messenger_backend.Database.Errors.{uuid, text}
use messenger_backend.Database.Queries
use messenger_backend.Database.Tables.{same_id}
use messenger_backend.Effects.{
  M, pure, raise_if, ◌>>=◌, ◌>>◌, service, transaction, connection, spawn_task,
  push_group_membership_change, group_deletion_side_effects,
}
use messenger_backend.External.{External}
use messenger_backend.Redis.Events.{join, leave}
use messenger_backend.Services.Errors.{insufficient_group_permission}
use messenger_backend.Services.Request.{Request}
use messenger_backend.Services.Translation.{
  handle_db_constraint_error, handle_db_not_found_error, no_overrides,
}

unfoldable pub list_group_members : Uuid → M (List Membership)
list_group_members group_id = connection (Queries.list_group_memberships group_id)

unfoldable pub get_group_details : Uuid → Uuid → M Models.Group
get_group_details actor_id group_id =
    let kw = ("actor_id", uuid actor_id) ∷ ("group_id", uuid group_id) ∷ [] in
    handle_db_constraint_error no_overrides kw (
      handle_db_not_found_error no_overrides kw (
        connection (do
          group ← Queries.get_group_by_id group_id
          Queries.get_membership group_id actor_id
          pure group)))

unfoldable pub list_user_groups : Uuid → M (List Models.Group)
list_user_groups user_id = connection (Queries.list_user_groups user_id)

module _ ⦃x : External⦄ where
  unfoldable pub create_group_tx : Models.Group → Membership → M Models.Group
  create_group_tx group_entity membership_entity = do
    group ← Queries.create_group group_entity
    Queries.add_group_member membership_entity
    pure group

  unfoldable pub create_group : Request → Uuid → String → M (Models.Group × Membership)
  create_group req creator_id name =
      let group_entity : Models.Group = record {
        group_id = req.uuid_v4;
        name = name;
        created_by = some creator_id;
        created_at = req.current_ts;
      } in
      let membership_entity : Membership = record {
        group_id = req.uuid_v4;
        user_id = creator_id;
        joined_at = req.current_ts;
      } in
      handle_db_constraint_error no_overrides
        (("creator_id", uuid creator_id) ∷ ("name", text name) ∷ [])
        (do
          group ← transaction (create_group_tx group_entity membership_entity)
          spawn_task (push_group_membership_change creator_id group.group_id join)
          pure (group, membership_entity))

  unfoldable pub add_member_tx : Request → Uuid → Uuid → Uuid → M Membership
  add_member_tx req actor_id group_id target_user_id = do
    group ← Queries.get_group_by_id group_id
    raise_if (not (same_id group.created_by actor_id))
        (service (insufficient_group_permission "Only the group creator can add new members."))
    Queries.add_group_member
        (record { group_id = group_id; user_id = target_user_id; joined_at = req.current_ts })

  unfoldable pub add_member : Request → Uuid → Uuid → Uuid → M Membership
  add_member req actor_id group_id target_user_id =
      let kw =
        ("actor_id", uuid actor_id)
        ∷ ("group_id", uuid group_id)
        ∷ ("target_user_id", uuid target_user_id)
        ∷ [] in
      handle_db_constraint_error no_overrides kw (
        handle_db_not_found_error no_overrides kw (do
          membership ← transaction (add_member_tx req actor_id group_id target_user_id)
          spawn_task (push_group_membership_change target_user_id group_id join)
          pure membership))

  unfoldable pub remove_member_tx : Uuid → Uuid → Uuid → M (Unit {0})
  remove_member_tx actor_id group_id target_user_id = do
    group ← Queries.get_group_by_id group_id
    raise_if (same_id group.created_by target_user_id) (
        service (
          insufficient_group_permission
            "Group creator cannot leave the group. Delete the group instead."))
    raise_if (not ((actor_id == target_user_id) || same_id group.created_by actor_id))
        (service (insufficient_group_permission "Only the group creator can remove other members."))
    Queries.remove_group_member group_id target_user_id

  unfoldable pub remove_member : Uuid → Uuid → Uuid → M (Unit {0})
  remove_member actor_id group_id target_user_id =
      let kw =
        ("actor_id", uuid actor_id)
        ∷ ("group_id", uuid group_id)
        ∷ ("target_user_id", uuid target_user_id)
        ∷ [] in
      handle_db_constraint_error no_overrides kw (
        handle_db_not_found_error no_overrides kw (
          transaction (remove_member_tx actor_id group_id target_user_id)
          >> spawn_task (push_group_membership_change target_user_id group_id leave)))

  unfoldable pub delete_group_tx : Uuid → Uuid → M (List Membership)
  delete_group_tx actor_id group_id = do
    group ← Queries.get_group_by_id group_id
    raise_if (not (same_id group.created_by actor_id))
        (service (insufficient_group_permission "Only the group creator can delete this group."))
    memberships ← Queries.list_group_memberships group_id
    Queries.delete_group group_id actor_id
    pure memberships

  unfoldable pub delete_group : Uuid → Uuid → M (Unit {0})
  delete_group actor_id group_id =
      let kw = ("actor_id", uuid actor_id) ∷ ("group_id", uuid group_id) ∷ [] in
      handle_db_constraint_error no_overrides kw (
        handle_db_not_found_error no_overrides kw (do
          memberships ← transaction (delete_group_tx actor_id group_id)
          spawn_task (group_deletion_side_effects group_id (map (λ m. m.user_id) memberships))))
