-- ===== src/Tests/Views.antt =====
-- A witness on events about memberships.
use messenger_backend.Base.{◌≡◌, refl}
use mathlib.Core.Quot
use messenger_backend.Redis.Events.{join, leave}
use messenger_backend.Services.WebSocket.{no_connections, add_socket}
use messenger_backend.Services.WebSocket.Views.{View, change, changes_commute}

-- A worker with a socket of user 2.
abbrev view : View
view = Quot.mk (add_socket 2 11 no_connections)

changes_commute_example :
    (change join 2 5 (change leave 2 6 view) ≡ change leave 2 6 (change join 2 5 view))
    × (change join 2 5 (change join 2 5 view) ≡ change join 2 5 view)
changes_commute_example = changes_commute join leave 2 2 5 6 refl view
