-- ===== src/Services/WebSocket.antt =====
-- WebSocketManager of src/services/websocket.py: the registries of one worker. A coroutine is split
-- where it awaits; each definition is the code between two awaits.
pub mod Routing
pub mod Steps
pub mod Dispatch
pub mod Delivery
pub mod Sessions
pub mod Views
use messenger_backend.Base.{
  ℕ, Bool, true, false, Option, none, some, List, [], ◌∷◌, ◌++◌, not, ◌==◌, if◌then◌else◌, contains,
  add, discard, add_all, is_empty, Dict, put, pop, or_empty, add_at, discard_at, is_none, keep,
}
use messenger_backend.Database.Models.{Uuid}
use messenger_backend.Redis.Events.{EventDict, MembershipAction, join, leave}

abbrev pub Socket : Type 0
Socket = ℕ

pub record Registry : Type 0 where
  pub local_connections : Dict (List Socket)
  pub group_connections : Dict (List Uuid)
  pub user_groups : Dict (List Uuid)

abbrev pub no_connections : Registry
no_connections = record {
  local_connections = λ _. none;
  group_connections = λ _. none;
  user_groups = λ _. none;
}

-- `user_id in self._local_connections`
abbrev pub is_connected : Uuid → Registry → Bool
is_connected user_id r = not (is_none (r.local_connections user_id))

abbrev pub sockets_of : Uuid → Registry → List Socket
sockets_of user_id r = or_empty (r.local_connections user_id)

abbrev pub members_of : Uuid → Registry → List Uuid
members_of group_id r = or_empty (r.group_connections group_id)

-- `register_connection` up to the call of Redis.
unfoldable pub add_socket : Uuid → Socket → Registry → Registry
add_socket user_id ws r = record r { local_connections = add_at user_id ws r.local_connections }

-- `for group_id in user_group_ids`
abbrev pub join_all : Uuid → List Uuid → Dict (List Uuid) → Dict (List Uuid)
join_all user_id [] d = d
join_all user_id (g ∷ gs) d = join_all user_id gs (add_at g user_id d)

-- `register_connection` after the query for the groups, of which a failed one gives none.
unfoldable pub merge_groups : Uuid → Socket → List Uuid → Registry → Registry
merge_groups user_id ws user_group_ids r =
    if contains ws (sockets_of user_id r)
    then record r {
      group_connections = join_all user_id user_group_ids r.group_connections;
      user_groups =
          put user_id (add_all user_group_ids (or_empty (r.user_groups user_id))) r.user_groups;
    }
    else r

-- `for group_id in groups`
abbrev pub leave_all : Uuid → List Uuid → Dict (List Uuid) → Dict (List Uuid)
leave_all user_id [] d = d
leave_all user_id (g ∷ gs) d = leave_all user_id gs (discard_at g user_id d)

-- The final session of a user has closed.
abbrev pub drop_user : Uuid → Registry → Registry
drop_user user_id r = record {
  local_connections = pop user_id r.local_connections;
  group_connections = leave_all user_id (or_empty (r.user_groups user_id)) r.group_connections;
  user_groups = pop user_id r.user_groups;
}

-- Whether `unregister_connection` goes on to remove the user.
abbrev pub is_last : Uuid → Socket → Registry → Bool
is_last user_id ws r = is_empty (discard ws (sockets_of user_id r))

-- `unregister_connection` up to the call of Redis, which `is_last` says is made.
unfoldable pub remove_socket : Uuid → Socket → Registry → Registry
remove_socket user_id ws r = if is_last user_id ws r then drop_user user_id r else record r {
  local_connections = put user_id (discard ws (sockets_of user_id r)) r.local_connections;
}

-- `self._user_groups[user_id].discard(group_id)`, if the user has an entry.
abbrev pub discard_present : Option (List Uuid) → Uuid → Uuid → Dict (List Uuid) → Dict (List Uuid)
discard_present none user_id group_id d = d
discard_present (some s) user_id group_id d = put user_id (discard group_id s) d

abbrev pub discard_group : Uuid → Uuid → Dict (List Uuid) → Dict (List Uuid)
discard_group user_id group_id d = discard_present (d user_id) user_id group_id d

-- The registries after `_handle_membership_change`.
unfoldable pub change_membership : MembershipAction → Uuid → Uuid → Registry → Registry
change_membership join user_id group_id r =
    if is_connected user_id r
    then record r {
      group_connections = add_at group_id user_id r.group_connections;
      user_groups = add_at user_id group_id r.user_groups;
    }
    else r
change_membership leave user_id group_id r = record r {
  group_connections = discard_at group_id user_id r.group_connections;
  user_groups = discard_group user_id group_id r.user_groups;
}

abbrev pub forget_group : Uuid → List Uuid → Dict (List Uuid) → Dict (List Uuid)
forget_group group_id [] d = d
forget_group group_id (m ∷ ms) d = forget_group group_id ms (discard_group m group_id d)

-- `_handle_group_deleted` after the frames are sent to the members that were there before.
unfoldable pub remove_group : Uuid → List Uuid → Registry → Registry
remove_group group_id local_members r = record r {
  group_connections = pop group_id r.group_connections;
  user_groups = forget_group group_id local_members r.user_groups;
}
