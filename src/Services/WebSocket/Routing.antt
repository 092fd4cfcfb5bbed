-- ===== src/Services/WebSocket/Routing.antt =====
-- Routing of one worker over every interleaving of the coroutines of src/services/websocket.py.
use messenger_backend.Base.{
  ◌≡◌, inl, inr, refl, true, List, [], ◌∷◌, not, ◌&&◌, ◌||◌, ◌==◌, contains, is_empty, Dict,
  or_empty, add_at, discard_at, is_in, arith, contains-discard, contains-add_all, is_in-add_at,
  is_in-discard_at, Bool-cases, Option-cases,
}
use messenger_backend.Database.Models.{Uuid}
use messenger_backend.Redis.Events.{MembershipAction, join, leave}
use messenger_backend.Services.WebSocket.{
  Socket, Registry, no_connections, is_connected, sockets_of, add_socket, join_all, merge_groups,
  leave_all, is_last, remove_socket, discard_group, change_membership, forget_group, remove_group,
}

-- A routed user is connected, and every route is undone by the user's own list of groups.
pub record IsRouted (r : Registry) : Type 0 where
  -- A user with an entry has a socket.
  pub held : (u : Uuid) → is_connected u r ≡ not (is_empty (sockets_of u r))
  pub listed : (g u : Uuid) → is_in g u r.group_connections ≡ true → is_in u g r.user_groups ≡ true
  pub connected : (g u : Uuid) → is_in u g r.user_groups ≡ true → is_connected u r ≡ true

is_in-join_all :
    (h v u : Uuid) (gs : List Uuid) (d : Dict (List Uuid))
    → is_in h v (join_all u gs d) ≡ (is_in h v d || ((u == v) && contains h gs))
is_in-join_all h v u [] d = ground arith
is_in-join_all h v u (g ∷ gs) d =
    ground (arith, is_in-join_all h v u gs (add_at g u d), is_in-add_at h v g u d)

is_in-leave_all :
    (h v u : Uuid) (gs : List Uuid) (d : Dict (List Uuid))
    → is_in h v (leave_all u gs d) ≡ (is_in h v d && not ((u == v) && contains h gs))
is_in-leave_all h v u [] d = ground arith
is_in-leave_all h v u (g ∷ gs) d =
    ground (arith, is_in-leave_all h v u gs (discard_at g u d), is_in-discard_at h v g u d)

pub is_in-discard_group :
    (h v u g : Uuid) (d : Dict (List Uuid))
    → is_in v h (discard_group u g d) ≡ (is_in v h d && not ((u == v) && (g == h)))
is_in-discard_group h v u g d = elim (Option-cases (d u)) [
  | inl e ↦ ground (arith, e)
  | inr (s, e) ↦ ground (arith, e, contains-discard h g s)
]

is_in-forget_group :
    (h v g : Uuid) (ms : List Uuid) (d : Dict (List Uuid))
    → is_in v h (forget_group g ms d) ≡ (is_in v h d && not ((g == h) && contains v ms))
is_in-forget_group h v g [] d = ground arith
is_in-forget_group h v g (m ∷ ms) d =
    ground (arith, is_in-forget_group h v g ms (discard_group m g d), is_in-discard_group h v m g d)

pub no_connections-IsRouted : IsRouted no_connections
no_connections-IsRouted = record { held = λ u. refl; listed = λ g u h. cc; connected = λ g u h. cc }

module _ (u : Uuid) (r : Registry) (i : IsRouted r) where
  pub add_socket-IsRouted : (ws : Socket) → IsRouted (add_socket u ws r)
  unfolding add_socket
  add_socket-IsRouted ws = record {
    held = λ v. ground (arith, i.held v);
    listed = i.listed;
    connected = λ g v h. ground (arith, i.connected g v h);
  }

  pub merge_groups-IsRouted : (ws : Socket) (gs : List Uuid) → IsRouted (merge_groups u ws gs r)
  unfolding merge_groups
  merge_groups-IsRouted ws gs = elim (Bool-cases (contains ws (sockets_of u r))) [
    | inr e ↦ rw e i
    | inl e ↦ rw e (record {
      held = i.held;
      listed = λ g v h. ground (
        arith,
        i.listed g v,
        rw (is_in-join_all g v u gs r.group_connections) at h,
        contains-add_all g gs (or_empty (r.user_groups u)),
      );
      connected = λ g v h.
          ground (
            arith,
            i.connected g v,
            i.held v,
            e,
            contains-add_all g gs (or_empty (r.user_groups u)),
          );
    })
  ]

  pub remove_socket-IsRouted : (ws : Socket) → IsRouted (remove_socket u ws r)
  unfolding remove_socket
  remove_socket-IsRouted ws = elim (Bool-cases (is_last u ws r)) [
    | inr e ↦ rw e (record {
      held = λ v. ground (arith, i.held v, e);
      listed = i.listed;
      connected = λ g v h. ground (arith, i.connected g v h);
    })
    | inl e ↦ rw e (record {
      held = λ v. ground (arith, i.held v);
      listed = λ g v h. ground (
        arith,
        i.listed g v,
        rw (is_in-leave_all g v u (or_empty (r.user_groups u)) r.group_connections) at h,
      );
      connected = λ g v h. ground (arith, i.connected g v);
    })
  ]

  pub change_membership-IsRouted :
      (a : MembershipAction) (g : Uuid) → IsRouted (change_membership a u g r)
  unfolding change_membership
  change_membership-IsRouted join g = elim (Bool-cases (is_connected u r)) [
    | inr e ↦ rw e i
    | inl e ↦ rw e (record {
      held = i.held;
      listed = λ h v m. ground (
        arith,
        i.listed h v,
        rw (is_in-add_at h v g u r.group_connections) at m,
        is_in-add_at v h u g r.user_groups,
      );
      connected =
          λ h v m. ground (arith, i.connected h v, e, rw (is_in-add_at v h u g r.user_groups) at m);
    })
  ]
  change_membership-IsRouted leave g = record {
    held = i.held;
    listed = λ h v m. ground (
      arith,
      i.listed h v,
      rw (is_in-discard_at h v g u r.group_connections) at m,
      is_in-discard_group h v u g r.user_groups,
    );
    connected = λ h v m.
        ground (arith, i.connected h v, rw (is_in-discard_group h v u g r.user_groups) at m);
  }

  pub remove_group-IsRouted : (ms : List Uuid) → IsRouted (remove_group u ms r)
  unfolding remove_group
  remove_group-IsRouted ms = record {
    held = i.held;
    listed = λ h v m. ground (arith, i.listed h v, is_in-forget_group h v u ms r.user_groups);
    connected = λ h v m.
        ground (arith, i.connected h v, rw (is_in-forget_group h v u ms r.user_groups) at m);
  }
