-- ===== src/Services/WebSocket/Views.antt =====
-- The registries of src/services/websocket.py up to the order of their sets: what a worker can tell of
-- them, as a quotient. Events about memberships come over Pub/Sub in any order.
use messenger_backend.Base.{
  ◌≡◌, refl, Bool, false, not, ◌&&◌, ◌||◌, ◌==◌, contains, is_in, arith, is_in-add_at,
  is_in-discard_at, Bool-cases, inl, inr,
}
use mathlib.Core.Quot
use mathlib.Core.Quot.{Quot, Quot-set}
use messenger_backend.Database.Models.{Uuid}
use messenger_backend.Redis.Events.{MembershipAction, join, leave}
use messenger_backend.Services.WebSocket.{
  Socket, Registry, is_connected, sockets_of, change_membership,
}
use messenger_backend.Services.WebSocket.Routing.{is_in-discard_group}

-- No test of membership tells the registries apart.
pub record AreAlike (r s : Registry) : Type 0 where
  pub users : (u : Uuid) → is_connected u r ≡ is_connected u s
  pub sockets :
      (u : Uuid) (ws : Socket) → contains ws (sockets_of u r) ≡ contains ws (sockets_of u s)
  pub members : (g u : Uuid) → is_in g u r.group_connections ≡ is_in g u s.group_connections
  pub groups : (u g : Uuid) → is_in u g r.user_groups ≡ is_in u g s.user_groups

abbrev pub View : Type 0
View = Quot AreAlike

-- Whether an entry is there after an action, by whether the user is connected, whether the entry is
-- the action's, and whether it was there.
abbrev entry_after : MembershipAction → Bool → Bool → Bool → Bool
entry_after join connected hit before = before || (connected && hit)
entry_after leave connected hit before = before && not hit

module _ (u g : Uuid) (r : Registry) where
  members_after :
      (a : MembershipAction) (h v : Uuid)
      → is_in h v (change_membership a u g r).group_connections
        ≡ entry_after a (is_connected u r) ((h == g) && (u == v)) (is_in h v r.group_connections)
  unfolding change_membership
  members_after join h v = elim (Bool-cases (is_connected u r)) [
    | inl e ↦ rw e (is_in-add_at h v g u r.group_connections)
    | inr e ↦ rw e (ground arith)
  ]
  members_after leave h v = is_in-discard_at h v g u r.group_connections

  groups_after :
      (a : MembershipAction) (v h : Uuid)
      → is_in v h (change_membership a u g r).user_groups
        ≡ entry_after a (is_connected u r) ((v == u) && (g == h)) (is_in v h r.user_groups)
  unfolding change_membership
  groups_after join v h = elim (Bool-cases (is_connected u r)) [
    | inl e ↦ rw e (is_in-add_at v h u g r.user_groups)
    | inr e ↦ rw e (ground arith)
  ]
  groups_after leave v h = ground (arith, is_in-discard_group h v u g r.user_groups)

  users_after :
      (a : MembershipAction) (v : Uuid)
      → is_connected v (change_membership a u g r) ≡ is_connected v r
  unfolding change_membership
  users_after join v = ground arith
  users_after leave v = refl

  sockets_after :
      (a : MembershipAction) (v : Uuid) (ws : Socket)
      → contains ws (sockets_of v (change_membership a u g r)) ≡ contains ws (sockets_of v r)
  unfolding change_membership
  sockets_after join v ws = elim (Bool-cases (is_connected u r)) [
    | inl e ↦ rw e refl
    | inr e ↦ rw e refl
  ]
  sockets_after leave v ws = refl

-- Two entries that neither action shares.
entries_commute :
    (a b : MembershipAction) (c d p q before : Bool)
    → (p && q) ≡ false
    → entry_after a c p (entry_after b d q before) ≡ entry_after b d q (entry_after a c p before)
entries_commute a b c d p q before e = ground arith

entries_repeat :
    (a : MembershipAction) (c p before : Bool)
    → entry_after a c p (entry_after a c p before) ≡ entry_after a c p before
entries_repeat a c p before = ground arith

pub change-AreAlike :
    (a : MembershipAction) (u g : Uuid) (r s : Registry)
    → AreAlike r s
    → AreAlike (change_membership a u g r) (change_membership a u g s)
change-AreAlike a u g r s e = record {
  users = λ v. rw (users_after u g r a v, users_after u g s a v) (e.users v);
  sockets = λ v ws. rw (sockets_after u g r a v ws, sockets_after u g s a v ws) (e.sockets v ws);
  members = λ h v.
      rw (members_after u g r a h v, members_after u g s a h v, e.members h v, e.users u) refl;
  groups =
      λ v h. rw (groups_after u g r a v h, groups_after u g s a v h, e.groups v h, e.users u) refl;
}

-- `_handle_membership_change` on what a worker can tell.
unfoldable pub change : MembershipAction → Uuid → Uuid → View → View
change a u g =
    Quot.lift Quot-set (λ r. Quot.mk (change_membership a u g r))
      (λ r s e. Quot.sound (change-AreAlike a u g r s e))

module _ (a b : MembershipAction) (u v g h : Uuid) (other : ((u == v) && (g == h)) ≡ false)
    (r : Registry) where
  apart : (i w : Uuid) → (((i == g) && (u == w)) && ((i == h) && (v == w))) ≡ false
  apart i w = ground arith

  listed_apart : (i w : Uuid) → (((w == u) && (g == i)) && ((w == v) && (h == i))) ≡ false
  listed_apart i w = ground arith

  changes-AreAlike :
      AreAlike
        (change_membership a u g (change_membership b v h r))
        (change_membership b v h (change_membership a u g r))
  changes-AreAlike =
      let first = change_membership a u g r in
      let second = change_membership b v h r in
      record {
        users = λ w.
            rw
              (
                users_after u g second a w,
                users_after v h r b w,
                users_after v h first b w,
                users_after u g r a w,
              )
              refl;
        sockets = λ w ws.
            rw
              (
                sockets_after u g second a w ws,
                sockets_after v h r b w ws,
                sockets_after v h first b w ws,
                sockets_after u g r a w ws,
              )
              refl;
        members = λ i w.
            rw
              (
                members_after u g second a i w,
                members_after v h r b i w,
                members_after v h first b i w,
                members_after u g r a i w,
                users_after v h r b u,
                users_after u g r a v,
              )
              (entries_commute a b _ _ _ _ _ (apart i w));
        groups = λ w i.
            rw
              (
                groups_after u g second a w i,
                groups_after v h r b w i,
                groups_after v h first b w i,
                groups_after u g r a w i,
                users_after v h r b u,
                users_after u g r a v,
              )
              (entries_commute a b _ _ _ _ _ (listed_apart i w));
      }

repeated-AreAlike :
    (a : MembershipAction) (u g : Uuid) (r : Registry)
    → AreAlike (change_membership a u g (change_membership a u g r)) (change_membership a u g r)
repeated-AreAlike a u g r =
    let once = change_membership a u g r in
    record {
      users = λ w. rw (users_after u g once a w) refl;
      sockets = λ w ws. rw (sockets_after u g once a w ws) refl;
      members = λ i w.
          rw (members_after u g once a i w, members_after u g r a i w, users_after u g r a u)
            (entries_repeat a _ _ _);
      groups = λ w i.
          rw (groups_after u g once a w i, groups_after u g r a w i, users_after u g r a u)
            (entries_repeat a _ _ _);
    }

-- Membership events that are about different pairs of user and group may come in either order, and one
-- that comes twice does what it does once: the worker's registries are then the same up to the order
-- of their sets, in which they differ by no test of membership.
pub changes_commute :
    (a b : MembershipAction) (u v g h : Uuid)
    → ((u == v) && (g == h)) ≡ false
    → (x : View)
    → (change a u g (change b v h x) ≡ change b v h (change a u g x))
      × (change a u g (change a u g x) ≡ change a u g x)
unfolding change
changes_commute a b u v g h other x = (commute x, repeat x)
  where
    commute : (x : View) → change a u g (change b v h x) ≡ change b v h (change a u g x)
    commute = Quot.ind (λ x. Quot-set _ _) (λ r. Quot.sound (changes-AreAlike a b u v g h other r))

    repeat : (x : View) → change a u g (change a u g x) ≡ change a u g x
    repeat = Quot.ind (λ x. Quot-set _ _) (λ r. Quot.sound (repeated-AreAlike a u g r))
