-- ===== src/Services/Auth/Login.antt =====
-- `AuthService.login` and `register` of src/services/auth.py.
use messenger_backend.Base.{
  Option, Option-cases, String, ◌≡◌, ◌⊎◌, inl, inr, refl, true, false, Bool, none, some, List, ◌&&◌,
  arith, update, All, str_eq, if◌then◌else◌, not, ◌==◌, update_sets, All-update, Bool-cases,
}
use messenger_backend.Database.Models.{User}
use messenger_backend.Database.Fetch
use messenger_backend.Database.Sql.{of_user, deactivate, execute, insert, violated}
use messenger_backend.Database.Queries
use messenger_backend.Database.Queries.{run, found}
use messenger_backend.Effects.{World, ok, err, service, effects}
use messenger_backend.External.{External, Verdict, mismatch, invalid_hash, matches, failed}
use messenger_backend.Services.Auth.{verdict, when, needs_rehash, issue_token_pair, login_tx, login}
use messenger_backend.Services.Errors.{invalid_credentials}
use messenger_backend.Services.Request.{Request, AuthConfig, TokenPair}
use messenger_backend.Services.Translation.{handle_db_constraint_error, handle_db_not_found_error}

module _ ⦃x : External⦄ (settings : AuthConfig) (req : Request) (name password : String)
    (w : World) where
  login_unknown :
      Fetch.user_by_username name w.db ≡ none
      → login settings req name password w ≡ (err (service invalid_credentials), w)
  unfolding login login_tx handle_db_constraint_error handle_db_not_found_error
      Queries.get_user_by_username found effects
  login_unknown e = ground arith

  login_mismatch :
      (u : User)
      → Fetch.user_by_username name w.db ≡ some u
      → (x.verify u.password_hash password ≡ mismatch)
        ⊎ (x.verify u.password_hash password ≡ invalid_hash)
      → login settings req name password w ≡ (err (service invalid_credentials), w)
  unfolding login login_tx verdict handle_db_constraint_error handle_db_not_found_error
      Queries.get_user_by_username found effects
  login_mismatch u e (inl bad) = ground arith
  login_mismatch u e (inr bad) = ground arith

  -- A login that returns is for a stored user whose hash the password matches.
  pub login_matches :
      {u : User} {pair : TokenPair} {w' : World}
      → login settings req name password w ≡ (ok (u, pair), w')
      → (Fetch.user_by_username name w.db ≡ some u) × (x.verify u.password_hash password ≡ matches)
  unfolding login login_tx verdict when issue_token_pair handle_db_constraint_error
      handle_db_not_found_error Queries.get_user_by_username found effects
  login_matches h = ground arith

  -- The users after the login of a deactivated account.
  abbrev reactivated : User → List User
  reactivated u =
      let active = update (of_user u.user_id) (deactivate false) w.db.users in
      if needs_rehash u.password_hash
      then update
          (λ r.
            (r.user_id == u.user_id) && str_eq r.password_hash u.password_hash && not r.deactivated)
          (λ r. record r { password_hash = x.hash req.salt password }) active
      else active

  login_users :
      {u : User} {pair : TokenPair} {w' : World}
      → login settings req name password w ≡ (ok (u, pair), w')
      → u.deactivated ≡ true
      → w'.db.users ≡ reactivated u
  unfolding login login_tx verdict when issue_token_pair handle_db_constraint_error
      handle_db_not_found_error Queries.get_user_by_username Queries.reactivate_user
      Queries.update_user_password Queries.create_access_token Queries.create_refresh_token run
      execute insert violated found effects
  login_users h off = ground arith

  -- Whether the password does not match the hash of the user, or there is no user.
  abbrev pub mismatches : Verdict → Bool
  mismatches matches = false
  mismatches mismatch = true
  mismatches invalid_hash = true
  mismatches failed = false

  abbrev pub is_refused : Option User → Bool
  is_refused none = true
  is_refused (some u) = mismatches (x.verify u.password_hash password)

  -- A login with an unknown name, or with a password that does not match the stored hash, ends with
  -- the same error, InvalidCredentialsError, and changes nothing: the reply does not tell whether the
  -- name exists.
  pub login_refused :
      is_refused (Fetch.user_by_username name w.db) ≡ true
      → login settings req name password w ≡ (err (service invalid_credentials), w)
  login_refused bad = elim (Option-cases (Fetch.user_by_username name w.db)) [
    | inl missing ↦ login_unknown missing
    | inr (u, e) ↦ login_mismatch u e (no_match _ (rw e at bad))
  ]
    where
      no_match : (v : Verdict) → mismatches v ≡ true → (v ≡ mismatch) ⊎ (v ≡ invalid_hash)
      no_match matches h = cc
      no_match mismatch h = inl refl
      no_match invalid_hash h = inr refl
      no_match failed h = cc

  -- A login that returns, where the account stored under the name is deactivated, has activated every
  -- row of that account; the record that it returns is the one that was stored before, which still
  -- says that the account is deactivated.
  pub login_reactivates :
      (stored : User) {u : User} {pair : TokenPair} {w' : World}
      → Fetch.user_by_username name w.db ≡ some stored
      → stored.deactivated ≡ true
      → login settings req name password w ≡ (ok (u, pair), w')
      → (u ≡ stored)
        × (u.deactivated ≡ true)
        × All (λ r. of_user stored.user_id r ≡ true → r.deactivated ≡ false) w'.db.users
  login_reactivates stored {u} found off h =
      let same : u ≡ stored = ground (arith, found, (login_matches h).0) in
      let active =
        update_sets (of_user stored.user_id) (deactivate false) (λ r. r.deactivated ≡ false)
          (λ r. refl) w.db.users in
      (
        same,
        rw same off,
        rw (login_users h (rw same off), same)
            (elim (Bool-cases (needs_rehash stored.password_hash)) [
              | inl old ↦ rw old (All-update _ _ _ (λ r k. k) _ active)
              | inr new ↦ rw new active
            ]),
      )
