-- ===== src/Services/WebSocket/Sessions.antt =====
-- Whole sessions, as src/api/routers/websocket.py runs them: the registries of
-- src/services/websocket.py with the presence counters of src/redis/queries.py.
use messenger_backend.Base.{
  ℕ, suc, ◌+◌, ◌≡◌, refl, ap, not, ◌∙◌, false, none, some, List, [], ◌∷◌, ◌==◌, if◌then◌else◌,
  contains, length, discard_absent, AreNew, arith,
}
use messenger_backend.Database.Models.{Uuid}
use messenger_backend.Redis.Presence.{
  pos, Counts, increment, count_of, add_active_user, remove_active_user, is_listed, is_active,
}
use messenger_backend.Services.WebSocket.{
  Socket, Registry, is_connected, sockets_of, add_socket, merge_groups, is_last, remove_socket,
}

-- The registries of the worker and the counters of the cluster.
abbrev pub Online : Type 0
Online = Registry × Counts

-- `register_connection`, where the query gave these groups.
unfoldable pub register_connection : Uuid → List Uuid → Socket → Online → Online
register_connection user_id groups ws (r, c) =
    (merge_groups user_id ws groups (add_socket user_id ws r), add_active_user user_id c)

unfoldable pub unregister_connection : Uuid → Socket → Online → Online
unregister_connection user_id ws (r, c) =
    (remove_socket user_id ws r, if is_last user_id ws r then remove_active_user user_id c else c)

-- Sessions of one user, each opened and closed within the one before.
unfoldable pub sessions : Uuid → List Uuid → List Socket → Online → Online
sessions user_id groups [] s = s
sessions user_id groups (ws ∷ l) s =
    unregister_connection user_id ws
      (sessions user_id groups l (register_connection user_id groups ws s))

module _ (u : Uuid) (gs : List Uuid) where
  opens :
      (ws : Socket) (r : Registry) (c : Counts)
      → contains ws (sockets_of u r) ≡ false
      → (sockets_of u (register_connection u gs ws (r, c)).0 ≡ ws ∷ sockets_of u r)
        × ((register_connection u gs ws (r, c)).1 u ≡ some (increment (count_of (c u))))
  unfolding register_connection add_socket merge_groups add_active_user
  opens ws r c new = ground (arith, new)

  closes_inner :
      (ws k : Socket) (l : List Socket) (s : Online)
      → sockets_of u s.0 ≡ ws ∷ k ∷ l
      → contains ws (k ∷ l) ≡ false
      → (sockets_of u (unregister_connection u ws s).0 ≡ k ∷ l)
        × ((unregister_connection u ws s).1 u ≡ s.1 u)
  unfolding unregister_connection remove_socket remove_active_user
  closes_inner ws k l (r, c) e new = ground (arith, e, discard_absent ws (k ∷ l) new)

  closes_last :
      (ws : Socket) (n : ℕ) (s : Online)
      → sockets_of u s.0 ≡ ws ∷ []
      → s.1 u ≡ some (pos (suc n))
      → (is_connected u (unregister_connection u ws s).0 ≡ false)
        × ((unregister_connection u ws s).1 u ≡ (if n == 0 then none else some (pos n)))
  unfolding unregister_connection remove_socket remove_active_user
  closes_last ws n (r, c) e count = ground (arith, e, count)

  -- Within an open session the counter only grows.
  nested :
      (l : List Socket) (k : Socket) (ks : List Socket) (n : ℕ) (s : Online)
      → AreNew l (k ∷ ks)
      → sockets_of u s.0 ≡ k ∷ ks
      → s.1 u ≡ some (pos n)
      → (sockets_of u (sessions u gs l s).0 ≡ k ∷ ks)
        × ((sessions u gs l s).1 u ≡ some (pos (n + length l)))
  unfolding sessions
  nested [] k ks n s new e count = (e, rw count (ground arith))
  nested (ws ∷ l) k ks n (r, c) new e count =
      let (held, counted) = opens ws r c (rw e new.0) in
      let (held', counted') =
        nested l ws (k ∷ ks) (suc n) (register_connection u gs ws (r, c)) new.1 (held ∙ rw e refl)
          (counted ∙ rw count refl) in
      let (inner, kept) = closes_inner ws k ks _ held' new.0 in
      (inner, kept ∙ counted' ∙ ground arith)

  -- A user without a session and without a counter opens one and, while it lasts, further sessions,
  -- and closes all of them. The worker has forgotten the user, but every further session has left one
  -- in the counter: a user who had a single session is not listed as active any more, and one who had
  -- two or more stays listed, since only the last close decrements.
  pub sessions_leave_count :
      (ws : Socket) (l : List Socket) (r : Registry) (c : Counts)
      → AreNew (ws ∷ l) []
      → r.local_connections u ≡ none
      → c u ≡ none
      → (is_connected u (sessions u gs (ws ∷ l) (r, c)).0 ≡ false)
        × ((sessions u gs (ws ∷ l) (r, c)).1 u
            ≡ (if length l == 0 then none else some (pos (length l))))
        × (is_active u (sessions u gs (ws ∷ l) (r, c)).1 ≡ not (length l == 0))
  unfolding sessions
  sessions_leave_count ws l r c new e count =
      let (held, counted) = opens ws r c (rw e refl) in
      let (held', counted') =
        nested l ws [] 1 (register_connection u gs ws (r, c)) new.1 (held ∙ rw e refl)
          (counted ∙ rw count refl) in
      let (gone, left) =
        closes_last ws (length l) (sessions u gs l (register_connection u gs ws (r, c))) held'
          (counted' ∙ ground arith) in
      (gone, left, ap is_listed left ∙ ground arith)
