-- ===== src/Services/WebSocket/Steps.antt =====
-- The coroutines of src/services/websocket.py interleaved: one step runs one of them from an await to
-- the next, and a worker remembers the ones that wait in between.
use messenger_backend.Base.{◌≡◌, true, false, List, [], ◌∷◌, ◌++◌, is_in, arith}
use messenger_backend.Database.Models.{Uuid}
use messenger_backend.Redis.Events.{MembershipAction}
use messenger_backend.Services.WebSocket.{
  Socket, Registry, no_connections, is_connected, members_of, add_socket, merge_groups, is_last,
  remove_socket, change_membership, remove_group,
}
use messenger_backend.Services.WebSocket.Routing.{
  IsRouted, no_connections-IsRouted, add_socket-IsRouted, merge_groups-IsRouted,
  remove_socket-IsRouted, change_membership-IsRouted, remove_group-IsRouted,
}

pub record Worker : Type 0 where
  pub registry : Registry
  -- The calls of `register_connection` that wait for Redis or for the tables.
  pub registering : List (Uuid × Socket)
  -- The calls of `_handle_group_deleted` that send frames to the members they have read.
  pub deleting : List (Uuid × List Uuid)

abbrev pub started : Worker
started = record { registry = no_connections; registering = []; deleting = [] }

pub data Step (w : Worker) : Worker → Type 0 where
  opened :
      (u : Uuid) (ws : Socket)
      → Step w (record w {
        registry = add_socket u ws w.registry;
        registering = (u, ws) ∷ w.registering;
      })
  -- The query gave these groups, or failed and gave none.
  loaded :
      (before after : List (Uuid × Socket)) (u : Uuid) (ws : Socket) (gs : List Uuid)
      → w.registering ≡ before ++ (u, ws) ∷ after
      → Step w
          (record w { registry = merge_groups u ws gs w.registry; registering = before ++ after })
  -- The Redis command failed: `register_connection` raises.
  refused :
      (before after : List (Uuid × Socket)) (u : Uuid) (ws : Socket)
      → w.registering ≡ before ++ (u, ws) ∷ after
      → Step w (record w { registering = before ++ after })
  closed : (u : Uuid) (ws : Socket) → Step w (record w { registry = remove_socket u ws w.registry })
  changed :
      (a : MembershipAction) (u g : Uuid)
      → Step w (record w { registry = change_membership a u g w.registry })
  group_read :
      (g : Uuid) → Step w (record w { deleting = (g, members_of g w.registry) ∷ w.deleting })
  group_removed :
      (before after : List (Uuid × List Uuid)) (g : Uuid) (ms : List Uuid)
      → w.deleting ≡ before ++ (g, ms) ∷ after
      → Step w (record w { registry = remove_group g ms w.registry; deleting = before ++ after })

pub data Steps : Worker → Worker → Type 0 where
  done : (w : Worker) → Steps w w
  next : {a b c : Worker} → Step a b → Steps b c → Steps a c

Step-IsRouted : {v w : Worker} → Step v w → IsRouted v.registry → IsRouted w.registry
Step-IsRouted {v} (opened u ws) i = add_socket-IsRouted u v.registry i ws
Step-IsRouted {v} (loaded _ _ u ws gs _) i = merge_groups-IsRouted u v.registry i ws gs
Step-IsRouted (refused _ _ u ws _) i = i
Step-IsRouted {v} (closed u ws) i = remove_socket-IsRouted u v.registry i ws
Step-IsRouted {v} (changed a u g) i = change_membership-IsRouted u v.registry i a g
Step-IsRouted (group_read g) i = i
Step-IsRouted {v} (group_removed _ _ g ms _) i = remove_group-IsRouted g v.registry i ms

Steps-IsRouted : {v w : Worker} → Steps v w → IsRouted v.registry → IsRouted w.registry
Steps-IsRouted (done w) i = i
Steps-IsRouted (next s ss) i = Steps-IsRouted ss (Step-IsRouted s i)

-- In every state that a worker reaches, whatever the interleaving, the registries are in order: a
-- user with an entry has a socket, a member of a routed group is connected, and the group is in the
-- user's own list, from which the routes are undone.
pub reachable-IsRouted : {w : Worker} → Steps started w → IsRouted w.registry
reachable-IsRouted ss = Steps-IsRouted ss no_connections-IsRouted

unheld :
    (u : Uuid) (ws : Socket) (r : Registry)
    → is_last u ws r ≡ true
    → is_connected u (remove_socket u ws r) ≡ false
unfolding remove_socket
unheld u ws r h = ground (arith, h)

-- When the last socket of a user closes, in any reachable state, no entry and no route of that user
-- is left: the worker sends nothing of any group to the user any more.
pub last_close_unroutes :
    (u : Uuid) (ws : Socket) {w : Worker}
    → Steps started w
    → is_last u ws w.registry ≡ true
    → (is_connected u (remove_socket u ws w.registry) ≡ false)
      × ((g : Uuid) → is_in g u (remove_socket u ws w.registry).group_connections ≡ false)
last_close_unroutes u ws {w} ss last =
    let gone = unheld u ws w.registry last in
    let i = remove_socket-IsRouted u w.registry (reachable-IsRouted ss) ws in
    (gone, λ g. ground (arith, gone, i.listed g u, i.connected g u))
