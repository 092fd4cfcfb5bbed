-- ===== src/Services/Cache/Invalidation.antt =====
-- `TokenCache.handle_invalidation_event` of src/services/auth.py on the events that the services
-- publish.
use messenger_backend.Base.{
  String, ◌≡◌, ◌≢◌, ◌↔◌, inl, inr, refl, true, false, Bool, some, List, [], ◌∷◌, not, ◌==◌, ==_iff,
  arith, str_eq, eq_iff, Elem, keep, Elem-keep, Bool-cases,
}
use messenger_backend.Database.Models.{Uuid, User}
use messenger_backend.External.{Entries, entry}
use messenger_backend.Redis.Events.{
  RedisEvent, direct_message_event, group_deleted_event, group_membership_event,
  group_message_event, join, leave, to_dict, token_revoked_event, user_invalidated_event,
}
use messenger_backend.Services.Cache.{handle_invalidation_event, evict, evict_user}

module _ {A : Type 0} (p : A → Bool) where
  Elem-kept : (l : List A) {a : A} → Elem a l → p a ≡ true → Elem a (keep p l)
  Elem-kept [] m h = elim m [ ]
  Elem-kept (x ∷ l) (inl e) h = rw (rw e at h) (inl e)
  Elem-kept (x ∷ l) (inr m) h = elim (Bool-cases (p x)) [
    | inl e ↦ rw e (inr (Elem-kept l m h))
    | inr e ↦ rw e (Elem-kept l m h)
  ]

pub entry-Elem : (k : String) (c : Entries) {u : User} → entry k c ≡ some u → Elem (k, u) c
entry-Elem k [] h = cc
entry-Elem k ((j, v) ∷ c) {u} h = elim (Bool-cases (str_eq j k)) [
  | inl e ↦ inl (ground (arith, (eq_iff j k).0 e))
  | inr e ↦ inr (entry-Elem k c (ground (arith, e)))
]

-- On the event that a user was invalidated, the cache drops the entries of that user and no other.
pub user_invalidated_drops :
    (i : Uuid) (e : String × User) (c : Entries)
    → Elem e (handle_invalidation_event (to_dict (user_invalidated_event i)) c)
      ↔ (Elem e c × (e.1.user_id ≢ i))
unfolding handle_invalidation_event evict_user
user_invalidated_drops i e c = (
  (λ m.
      let (n, h) = Elem-keep (λ r. not (r.1.user_id == i)) c m in
      (n, λ z. ground (arith, ==_iff e.1.user_id i))),
  λ h. Elem-kept (λ r. not (r.1.user_id == i)) c h.0 (ground (arith, h.1, ==_iff e.1.user_id i)),
)

-- On the event that a token was revoked, the cache drops the entries under its digest and no other.
pub token_revoked_drops :
    (h : String) (e : String × User) (c : Entries)
    → str_eq h "" ≡ false
    → Elem e (handle_invalidation_event (to_dict (token_revoked_event h)) c)
      ↔ (Elem e c × (e.0 ≢ h))
unfolding handle_invalidation_event evict
token_revoked_drops h e c given = (
  (λ m.
      let (n, d) = Elem-keep (λ r. not (str_eq r.0 h)) c (rw given at m) in
      (n, λ z. ground (arith, d, (eq_iff e.0 h).1 z))),
  λ m. rw given (
      Elem-kept (λ r. not (str_eq r.0 h)) c m.0
        (elim (Bool-cases (str_eq e.0 h)) [
          | inl same ↦ absurd (m.1 ((eq_iff e.0 h).0 same))
          | inr differs ↦ rw differs refl
        ])),
)

-- The entries that an event is about.
abbrev pub Names : RedisEvent → String × User → Type 0
Names (user_invalidated_event i) e = e.1.user_id ≡ i
Names (token_revoked_event h) e = e.0 ≡ h
Names _ e = ⊥

-- The digest of a revoked token is not empty.
abbrev pub IsPublished : RedisEvent → Type 0
IsPublished (token_revoked_event h) = str_eq h "" ≡ false
IsPublished _ = Unit

-- A worker that handles an event drops from its cache exactly the entries that the event is about:
-- those of the user that was invalidated, those under the digest of the token that was revoked, and
-- none for any other event.
pub invalidation_drops :
    (ev : RedisEvent) (e : String × User) (c : Entries)
    → IsPublished ev
    → Elem e (handle_invalidation_event (to_dict ev) c) ↔ (Elem e c × ¬ Names ev e)
unfolding handle_invalidation_event
invalidation_drops (user_invalidated_event i) e c k = user_invalidated_drops i e c
invalidation_drops (token_revoked_event h) e c k = token_revoked_drops h e c k
invalidation_drops (direct_message_event _) e c k = ((λ m. (m, λ n. n)), λ m. m.0)
invalidation_drops (group_message_event _) e c k = ((λ m. (m, λ n. n)), λ m. m.0)
invalidation_drops (group_membership_event join _ _) e c k = ((λ m. (m, λ n. n)), λ m. m.0)
invalidation_drops (group_membership_event leave _ _) e c k = ((λ m. (m, λ n. n)), λ m. m.0)
invalidation_drops (group_deleted_event _) e c k = ((λ m. (m, λ n. n)), λ m. m.0)
