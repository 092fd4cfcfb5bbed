-- ===== src/Services/Auth/Replay.antt =====
-- Rotation and reuse detection: `AuthService.refresh` of src/services/auth.py on each branch.
pub mod Branches
use messenger_backend.Base.{
  Option, if◌then◌else◌, String, ◌≡◌, ◌≢◌, refl, ◌∙◌, ap, true, false, none, some, List, [], ◌∷◌,
  ◌++◌, arith, any, find, update, All, Bool-cases, str_eq, find-update, update_sets, eq_iff, count,
  any-update, All_at, find-Elem, find-holds, not_of_Elem, count-zero, any_of_find, inl, inr,
  Option-cases,
}
use messenger_backend.Database.Models.{Uuid, Token, is_expired}
use messenger_backend.Database.Fetch
use messenger_backend.Database.Sql.{of_token, of_owner, revoke, execute, insert, violated}
use messenger_backend.Database.Tables.{Db, has_user, IsConsistent}
use messenger_backend.Database.Queries
use messenger_backend.Database.Queries.{found, run}
use messenger_backend.Effects.{World, ok, err, service, effects}
use messenger_backend.External.{External}
use messenger_backend.Redis.Events.{user_invalidated_event, token_revoked_event, to_dict}
use messenger_backend.Services.Auth.{
  access_row, refresh_row, issue_token_pair, revoke_sessions, reissue, rotate, refresh_tx, announce,
  refresh,
}
use messenger_backend.Services.Errors.{ServiceError, invalid_token, token_expired, token_revoked}
use messenger_backend.Services.Request.{Request, AuthConfig, TokenPair, generate_token_pair}
use messenger_backend.Services.Translation.{handle_db_constraint_error, handle_db_not_found_error}
use messenger_backend.Services.Auth.Replay.Branches.{
  end_sessions, rotated, IsNew, refresh_unknown, refresh_expired, refresh_valid,
  refresh_succeeds_when_accepted, not_reused,
}

module _ ⦃x : External⦄ (settings : AuthConfig) (req : Request) (raw : String) (w : World) where
  -- With Redis up, a refresh with a stored token that is revoked ends with TokenRevokedError, revokes
  -- every access and refresh token of its user, and announces the user's invalidation.
  pub refresh_reused :
      (t : Token)
      → Fetch.refresh_token (x.hash_token raw) w.db ≡ some t
      → t.is_revoked ≡ true
      → w.faults ≡ []
      → refresh settings req raw w ≡ (
        err (service token_revoked),
        record w {
          db = end_sessions t.user_id w.db;
          stream = w.stream ++ to_dict (user_invalidated_event t.user_id) ∷ [];
        },
      )
  unfolding refresh refresh_tx rotate announce revoke_sessions handle_db_constraint_error
      handle_db_not_found_error Queries.get_refresh_token Queries.revoke_all_user_access_tokens
      Queries.revoke_all_user_refresh_tokens run execute found effects
  refresh_reused t e revoked up = ground arith

  -- In consistent tables, with Redis up and digests that no stored token has, a refresh token that is
  -- stored, not revoked and not expired is exchanged: the new pair is returned, both tables are those
  -- of `rotated`, and the invalidation of the old token is published.
  pub refresh_succeeds :
      (t : Token)
      → IsConsistent w.db
      → Fetch.refresh_token (x.hash_token raw) w.db ≡ some t
      → t.is_revoked ≡ false
      → is_expired req.current_ts t ≡ false
      → IsNew settings req raw w req.access_token w.db.access_tokens
      → IsNew settings req raw w req.refresh_token w.db.refresh_tokens
      → w.faults ≡ []
      → refresh settings req raw w ≡ (
        ok (generate_token_pair settings req),
        record w {
          db = rotated settings req raw w t w.db;
          stream = w.stream ++ to_dict (token_revoked_event (x.hash_token raw)) ∷ [];
        },
      )
  refresh_succeeds t c e fresh early new_a new_r up =
      refresh_succeeds_when_accepted settings req raw w t e fresh early
        (All_at _ w.db.refresh_tokens c.references.refresh_users
          (find-Elem (of_token (x.hash_token raw)) w.db.refresh_tokens e))
        new_a
        (any-update (of_token (x.hash_token raw)) revoke
            (λ r. str_eq (x.hash_token req.refresh_token) r.token_hash) (λ r. refl)
            w.db.refresh_tokens
          ∙ new_r)
        (λ z. cc (
          count-zero (of_token (x.hash_token raw)) w.db.refresh_tokens z,
          any_of_find (of_token (x.hash_token raw)) w.db.refresh_tokens e,
        ))
        up

  -- A refresh that returns has found a stored token that is neither revoked nor expired; it returns
  -- the generated pair and leaves the tables of `rotated`.
  pub refresh_rotates :
      {pair : TokenPair} {w' : World}
      → refresh settings req raw w ≡ (ok pair, w')
      → (t : Token) × (Fetch.refresh_token (x.hash_token raw) w.db ≡ some t)
        × (t.is_revoked ≡ false)
        × (is_expired req.current_ts t ≡ false)
        × (pair ≡ generate_token_pair settings req)
        × (w'.db ≡ rotated settings req raw w t w.db)
        × IsNew settings req raw w req.refresh_token
            (update (of_token (x.hash_token raw)) revoke w.db.refresh_tokens)
  refresh_rotates h = elim (Option-cases (Fetch.refresh_token (x.hash_token raw) w.db)) [
    | inl missing ↦ cc (refresh_unknown settings req raw w missing)
    | inr (t, e) ↦ elim (Bool-cases t.is_revoked) [
      | inl revoked ↦ absurd (not_reused settings req raw w t e revoked h)
      | inr fresh ↦ elim (Bool-cases (is_expired req.current_ts t)) [
        | inl late ↦ cc (refresh_expired settings req raw w t e fresh late)
        | inr early ↦
            let (p, d, n) = refresh_valid settings req raw w t e fresh early h in
            (t, e, fresh, early, p, d, n)
      ]
    ]
  ]

  -- The error for a token that is unknown, and for one that is expired and not revoked.
  abbrev pub refusal : Option Token → Option ServiceError
  refusal none = some invalid_token
  refusal (some t) =
      if t.is_revoked
      then none
      else if is_expired req.current_ts t
      then some token_expired
      else none

  -- A refresh with an unknown token is refused as invalid, and one with a token that is stored, not
  -- revoked, and expired is refused as expired; neither changes anything.
  pub refresh_refused :
      {e : ServiceError}
      → refusal (Fetch.refresh_token (x.hash_token raw) w.db) ≡ some e
      → refresh settings req raw w ≡ (err (service e), w)
  refresh_refused h = elim (Option-cases (Fetch.refresh_token (x.hash_token raw) w.db)) [
    | inl missing ↦ ground (arith, refresh_unknown settings req raw w missing)
    | inr (t, stored) ↦ ground (arith, refresh_expired settings req raw w t stored)
  ]

  -- After the rotation the old token is still found, and is revoked.
  found_revoked :
      (t : Token)
      → find (of_token (x.hash_token raw)) w.db.refresh_tokens ≡ some t
      → IsNew settings req raw w req.refresh_token
          (update (of_token (x.hash_token raw)) revoke w.db.refresh_tokens)
      → find (of_token (x.hash_token raw)) (rotated settings req raw w t w.db).refresh_tokens
        ≡ some (revoke t)
  found_revoked t e new =
      let there =
        find-update (of_token (x.hash_token raw)) revoke (λ r. refl) w.db.refresh_tokens e in
      let differs =
        not_of_Elem (λ r. str_eq (x.hash_token req.refresh_token) r.token_hash)
          (update (of_token (x.hash_token raw)) revoke w.db.refresh_tokens)
          (find-Elem (of_token (x.hash_token raw)) _ there) new in
      let hash =
        (eq_iff t.token_hash (x.hash_token raw)).0
          (find-holds (of_token (x.hash_token raw)) w.db.refresh_tokens e) in
      rw (rw hash at differs) there

module _ ⦃x : External⦄ (settings : AuthConfig) (req req' : Request) (raw : String) (w v : World)
    {pair : TokenPair} {w' : World} where
  -- A refresh token works once. When the token of a refresh that returned is presented again, to any
  -- worker with the tables of that moment and Redis up, the call ends with TokenRevokedError, and
  -- every access and refresh token of its user is revoked, the pair issued by the first call included.
  pub refresh_replay :
      refresh settings req raw w ≡ (ok pair, w')
      → v.db ≡ w'.db
      → v.faults ≡ []
      → (t : Token) × (Fetch.refresh_token (x.hash_token raw) w.db ≡ some t)
        × ((refresh settings req' raw v).0 ≡ err (service token_revoked))
        × All
            (λ a. of_owner t.user_id a ≡ true → a.is_revoked ≡ true)
            (refresh settings req' raw v).1.db.access_tokens
        × All
            (λ a. of_owner t.user_id a ≡ true → a.is_revoked ≡ true)
            (refresh settings req' raw v).1.db.refresh_tokens
  refresh_replay h same up =
      let (t, e, fresh, early, p, d, new) = refresh_rotates settings req raw w h in
      let again =
        refresh_reused settings req' raw v (revoke t)
          (rw (same, d) (found_revoked settings req raw w t e new)) refl up in
      (
        t,
        e,
        ap (λ r. r.0) again,
        rw again (update_sets (of_owner t.user_id) revoke _ (λ a. refl) v.db.access_tokens),
        rw again (update_sets (of_owner t.user_id) revoke _ (λ a. refl) v.db.refresh_tokens),
      )
