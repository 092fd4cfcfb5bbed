-- ===== src/Api/Routers/Group.antt =====
-- src/api/routers/group.py.
use messenger_backend.Base.{List, map}
use messenger_backend.Database.Models
use messenger_backend.Database.Models.{Uuid}
use messenger_backend.Effects.{M, pure, ◌>>=◌}
use messenger_backend.External.{External}
use messenger_backend.Services.Group
use messenger_backend.Services.Request.{Request}
use messenger_backend.Api.Schemas.{
  CreateGroupRequest, AddGroupMemberRequest, GroupResponse, MembershipResponse, validate_group,
  validate_membership,
}

unfoldable pub list_groups : Models.User → M (List GroupResponse)
list_groups current_user = do
  groups ← Group.list_user_groups current_user.user_id
  pure (map validate_group groups)

unfoldable pub get_group : Uuid → Models.User → M GroupResponse
get_group group_id current_user = do
  group ← Group.get_group_details current_user.user_id group_id
  pure (validate_group group)

unfoldable pub list_group_members : Uuid → M (List MembershipResponse)
list_group_members group_id = do
  memberships ← Group.list_group_members group_id
  pure (map validate_membership memberships)

module _ ⦃x : External⦄ where
  unfoldable pub create_group : Request → CreateGroupRequest → Models.User → M GroupResponse
  create_group req payload current_user = do
    (group, _) ← Group.create_group req current_user.user_id payload.name
    pure (validate_group group)

  unfoldable pub delete_group : Uuid → Models.User → M (Unit {0})
  delete_group group_id current_user = Group.delete_group current_user.user_id group_id

  unfoldable pub add_member :
      Request → Uuid → AddGroupMemberRequest → Models.User → M MembershipResponse
  add_member req group_id payload current_user = do
    membership ← Group.add_member req current_user.user_id group_id payload.user_id
    pure (validate_membership membership)

  unfoldable pub remove_member : Uuid → Uuid → Models.User → M (Unit {0})
  remove_member group_id user_id current_user =
      Group.remove_member current_user.user_id group_id user_id
