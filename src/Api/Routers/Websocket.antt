-- ===== src/Api/Routers/Websocket.antt =====
-- The endpoint of src/api/routers/websocket.py, for one socket whose user is let in: a session from
-- its registration to its end.
use messenger_backend.Base.{
  ◌≡◌, Bool, true, false, List, contains, contains-add, contains-discard, arith,
}
use messenger_backend.Database.Models.{Uuid}
use messenger_backend.Services.WebSocket.{Socket, Registry, sockets_of, add_socket, remove_socket}
use messenger_backend.Services.WebSocket.Sessions.{
  Online, register_connection, unregister_connection,
}

-- How the await of `register_connection` ends: with the groups that its query gave, or with what the
-- Redis command raised.
pub data Registration : Type 0 where
  registered : List Uuid → Registration
  failed : Registration

-- `unregister_connection`, whose Redis command may raise; the endpoint logs that.
abbrev pub unregister : Bool → Uuid → Socket → Online → Online
unregister true user_id ws s = unregister_connection user_id ws s
unregister false user_id ws (r, c) = (remove_socket user_id ws r, c)

-- `meanwhile` is what else happens on the worker from the registration to the end of the session,
-- and `up` whether the last Redis command succeeds. A registration that raises is not undone.
unfoldable pub websocket_endpoint :
    Uuid → Socket → Registration → (Online → Online) → Bool → Online → Online
websocket_endpoint user_id ws (registered groups) meanwhile up s =
    unregister up user_id ws (meanwhile (register_connection user_id groups ws s))
websocket_endpoint user_id ws failed meanwhile up (r, c) = (add_socket user_id ws r, c)

-- The registration raised.
abbrev pub is_failed : Registration → Bool
is_failed (registered _) = false
is_failed failed = true

module _ (u : Uuid) (ws : Socket) where
  remove_socket-removes : (r : Registry) → contains ws (sockets_of u (remove_socket u ws r)) ≡ false
  unfolding remove_socket
  remove_socket-removes r = ground (arith, contains-discard ws ws (sockets_of u r))

  unregister-removes :
      (up : Bool) (s : Online) → contains ws (sockets_of u (unregister up u ws s).0) ≡ false
  unfolding unregister_connection
  unregister-removes true (r, c) = remove_socket-removes r
  unregister-removes false (r, c) = remove_socket-removes r

  -- When the endpoint ends, its socket is registered if and only if its registration raised: a session
  -- that was registered is removed from the worker, whatever happened meanwhile and whether or not the
  -- last Redis command succeeds, and one whose registration raised is left there.
  pub endpoint_leaves :
      (registration : Registration) (meanwhile : Online → Online) (up : Bool) (s : Online)
      → contains ws (sockets_of u (websocket_endpoint u ws registration meanwhile up s).0)
        ≡ is_failed registration
  unfolding websocket_endpoint add_socket
  endpoint_leaves (registered groups) meanwhile up s =
      unregister-removes up (meanwhile (register_connection u groups ws s))
  endpoint_leaves failed meanwhile up (r, c) = ground (arith, contains-add ws ws (sockets_of u r))
