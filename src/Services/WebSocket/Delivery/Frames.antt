-- ===== src/Services/WebSocket/Delivery/Frames.antt =====
-- The frames that a worker sends for a list of users (src/services/websocket.py), one for every socket.
use messenger_backend.Base.{
  ℕ, ◌≡◌, ◌≢◌, ◌↔◌, ◌⊎◌, inl, inr, refl, ap, false, some, List, [], ◌∷◌, ◌++◌, map, ◌==◌, ==_iff,
  keep, Elem, Elem-keep, Bool-cases, arith,
}
use messenger_backend.Database.Models.{Uuid}
use messenger_backend.Redis.Events.{EventDict}
use messenger_backend.Services.WebSocket.{Socket, Registry, sockets_of}
use messenger_backend.Services.WebSocket.Dispatch.{
  Sent, send_frame_to_user_sockets, send_frame_to_users, is_other,
}

module _ {A : Type 0} where
  Elem-++ : (a : A) (l m : List A) → Elem a (l ++ m) ↔ (Elem a l ⊎ Elem a m)
  Elem-++ a [] m = ((λ h. inr h), λ h. elim h [ inl z ↦ elim z [ ] | inr z ↦ z ])
  Elem-++ a (x ∷ l) m = (
    (λ h. elim h [
      | inl e ↦ inl (inl e)
      | inr z ↦ elim ((Elem-++ a l m).0 z) [ inl y ↦ inl (inr y) | inr y ↦ inr y ]
    ]),
    λ h. elim h [
      | inl z ↦ elim z [ inl e ↦ inl e | inr y ↦ inr ((Elem-++ a l m).1 (inl y)) ]
      | inr y ↦ inr ((Elem-++ a l m).1 (inr y))
    ],
  )

pub Elem-frames :
    (f d : EventDict) (ws : Socket) (l : List Socket)
    → Elem {A = Sent} (ws, f) (map (λ s. (s, d)) l) ↔ ((f ≡ d) × Elem ws l)
Elem-frames f d ws [] = ((λ h. elim h [ ]), λ h. elim h.1 [ ])
Elem-frames f d ws (s ∷ l) = (
  (λ h. elim h [
    | inl e ↦ (ap (λ p. p.1) e, inl (ap (λ p. p.0) e))
    | inr z ↦ let (e, y) = (Elem-frames f d ws l).0 z in (e, inr y)
  ]),
  λ h. elim h.1 [
    | inl e ↦ inl (rw (h.0, e) refl)
    | inr y ↦ inr ((Elem-frames f d ws l).1 (h.0, y))
  ],
)

-- The frame is the one that is sent, and the socket is an open one of one of the users.
abbrev pub Receives : List Uuid → EventDict → Registry → Socket → EventDict → Type 0
Receives us d r ws f = (f ≡ d) × ((u : Uuid) × Elem u us × Elem ws (sockets_of u r))

pub Elem-send :
    (us : List Uuid) (f d : EventDict) (ws : Socket) (r : Registry)
    → Elem {A = Sent} (ws, f) (send_frame_to_users us d r) ↔ Receives us d r ws f
unfolding send_frame_to_user_sockets
Elem-send [] f d ws r = ((λ h. elim h [ ]), λ h. let (v, m, y) = h.1 in elim m [ ])
Elem-send (u ∷ us) f d ws r = (
  (λ h.
      elim ((Elem-++ {A = Sent} (ws, f) (map (λ s. (s, d)) (sockets_of u r))
          (send_frame_to_users us d r)).0
        h) [
          | inl z ↦ let (e, y) = (Elem-frames f d ws (sockets_of u r)).0 z in (e, (u, inl refl, y))
          | inr z ↦
              let (e, s) = (Elem-send us f d ws r).0 z in let (v, m, y) = s in (e, (v, inr m, y))
        ]),
  λ h.
      let (v, m, y) = h.1 in
      (Elem-++ {A = Sent} (ws, f) (map (λ s. (s, d)) (sockets_of u r))
          (send_frame_to_users us d r)).1
        (elim m [
          | inl same ↦ inl ((Elem-frames f d ws (sockets_of u r)).1 (h.0, rw same at y))
          | inr m ↦ inr ((Elem-send us f d ws r).1 (h.0, (v, m, y)))
        ]),
)

pub Elem-kept_others :
    (s u : Uuid) (l : List Uuid) → Elem u (keep (is_other (some s)) l) ↔ (Elem u l × (u ≢ s))
Elem-kept_others s u [] = ((λ h. elim h [ ]), λ h. elim h.0 [ ])
Elem-kept_others s u (x ∷ l) = (
  (λ h.
      let (m, o) = Elem-keep (is_other (some s)) (x ∷ l) h in (m, λ z. ground (arith, ==_iff u s))),
  λ h. elim h.0 [
    | inl e ↦ rw (differs (rw e at h.1)) (inl e)
    | inr m ↦ elim (Bool-cases (x == s)) [
      | inl same ↦ rw same ((Elem-kept_others s u l).1 (m, h.1))
      | inr other ↦ rw other (inr ((Elem-kept_others s u l).1 (m, h.1)))
    ]
  ],
)
  where
    differs : {a : ℕ} → a ≢ s → (a == s) ≡ false
    differs {a} h = ground (arith, ==_iff a s)
