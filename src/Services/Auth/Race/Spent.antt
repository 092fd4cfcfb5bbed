-- ===== src/Services/Auth/Race/Spent.antt =====
-- A refresh token of src/services/auth.py that was rotated stays so: no statement of
-- src/database/sql.py makes its row valid again.
use messenger_backend.Base.{
  ℕ, String, ◌≡◌, refl, true, some, ◌∷◌, arith, not, All, All-keep, All-update, All_at, find-Elem,
  find-holds, Bool-cases, inl, inr, keep, update,
}
use messenger_backend.Database.Models.{Token}
use messenger_backend.Database.Fetch
use messenger_backend.Database.Sql.{
  Statement, Outcome, done, fails, execute, insert, violated, of_token, of_owner, is_stale, revoke,
}
use messenger_backend.Database.Sql
use messenger_backend.Database.Tables.{Db, has_user}
use messenger_backend.External.{External}
use messenger_backend.Services.Auth.Race.{IsOther}

-- Every row of the token is revoked.
abbrev pub IsSpent : String → Db → Type 0
IsSpent h db = All (λ t. of_token h t ≡ true → t.is_revoked ≡ true) db.refresh_tokens

module _ ⦃x : External⦄ (h : String) (db db' : Db) (n : ℕ) where
  same_tokens : (db'.refresh_tokens ≡ db.refresh_tokens) → IsSpent h db → IsSpent h db'
  same_tokens e k = rw e k

  pub statement-IsSpent :
      (s : Statement) → IsOther h s → execute s db ≡ done n db' → IsSpent h db → IsSpent h db'
  unfolding execute insert violated
  statement-IsSpent (Sql.insert_refresh_token t) other e k =
      let same : db'.refresh_tokens ≡ t ∷ db.refresh_tokens = ground arith in rw same ((λ m. cc), k)
  statement-IsSpent (Sql.revoke_refresh_token g) other e k =
      let same : db'.refresh_tokens ≡ update (of_token g) revoke db.refresh_tokens = ground arith in
      rw same (All-update _ revoke _ (λ t p m. refl) db.refresh_tokens k)
  statement-IsSpent (Sql.revoke_all_user_refresh_tokens i) other e k =
      let same : db'.refresh_tokens ≡ update (of_owner i) revoke db.refresh_tokens = ground arith in
      rw same (All-update _ revoke _ (λ t p m. refl) db.refresh_tokens k)
  statement-IsSpent (Sql.expired_refresh_tokens now) other e k =
      let same : db'.refresh_tokens ≡ keep (λ t. not (is_stale now t)) db.refresh_tokens =
        ground arith in
      rw same (All-keep _ _ db.refresh_tokens k)
  statement-IsSpent (Sql.delete_user i) other e k = elim (Bool-cases (has_user db.users i)) [
    | inr absent ↦ same_tokens (ground arith) k
    | inl present ↦
        let same : db'.refresh_tokens ≡ keep (λ t. not (of_owner i t)) db.refresh_tokens =
          ground arith in
        rw same (All-keep _ _ db.refresh_tokens k)
  ]
  statement-IsSpent _ other e k = same_tokens (ground arith) k

-- A row that is found in such tables is revoked.
pub found_spent :
    (h : String) (db : Db) {t : Token}
    → IsSpent h db
    → Fetch.refresh_token h db ≡ some t
    → t.is_revoked ≡ true
found_spent h db k e =
    All_at _ db.refresh_tokens k (find-Elem (of_token h) db.refresh_tokens e)
      (find-holds (of_token h) db.refresh_tokens e)
