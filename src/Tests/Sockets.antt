-- ===== src/Tests/Sockets.antt =====
-- Witnesses on the registries of a worker and on delivery.
use messenger_backend.Base.{◌≡◌, refl, true, false, some, none, [], ◌∷◌, is_in, contains}
use messenger_backend.Api.Routers.Websocket.{failed, websocket_endpoint, endpoint_leaves}
use messenger_backend.Database.Models.{Uuid}
use messenger_backend.Redis.Presence.{pos, is_active}
use messenger_backend.Services.WebSocket.{
  no_connections, is_connected, add_socket, merge_groups, remove_socket, is_last, sockets_of,
}
use messenger_backend.Services.WebSocket.Routing.{IsRouted}
use messenger_backend.Services.WebSocket.Sessions.{sessions, sessions_leave_count}
use messenger_backend.Services.WebSocket.Steps.{
  Worker, opened, loaded, Steps, done, next, started, reachable-IsRouted, last_close_unroutes,
}

abbrev connected : Worker
connected = record {
  registry = merge_groups 1 11 (5 ∷ []) (add_socket 1 11 no_connections);
  registering = [];
  deleting = [];
}

connects : Steps started connected
connects = next (opened 1 11) (next (loaded [] [] 1 11 (5 ∷ []) refl) (done connected))

reachable-IsRouted_example : IsRouted connected.registry
reachable-IsRouted_example = reachable-IsRouted connects

last : is_last 1 11 connected.registry ≡ true
unfolding merge_groups add_socket
last = refl

last_close_unroutes_example :
    (is_connected 1 (remove_socket 1 11 connected.registry) ≡ false)
    × ((g : Uuid) → is_in g 1 (remove_socket 1 11 connected.registry).group_connections ≡ false)
last_close_unroutes_example = last_close_unroutes 1 11 connects last

sessions_leave_count_example :
    (is_connected 1 (sessions 1 [] (11 ∷ 12 ∷ []) (no_connections, λ _. none)).0 ≡ false)
    × ((sessions 1 [] (11 ∷ 12 ∷ []) (no_connections, λ _. none)).1 1 ≡ some (pos 1))
    × (is_active 1 (sessions 1 [] (11 ∷ 12 ∷ []) (no_connections, λ _. none)).1 ≡ true)
sessions_leave_count_example =
    sessions_leave_count 1 [] 11 (12 ∷ []) no_connections (λ _. none) (refl, (refl, tt)) refl refl

-- Redis is down: the socket stays.
endpoint_leaves_example :
    contains 12 (
      sockets_of 1
        (websocket_endpoint 1 12 failed (λ s. s) false (connected.registry, λ _. none)).0)
    ≡ true
endpoint_leaves_example = endpoint_leaves 1 12 failed (λ s. s) false (connected.registry, λ _. none)
