-- ===== src/Services/User/Accounts.antt =====
-- Deletion of an account, src/services/user.py, over the schema of src/database/sql.py.
use messenger_backend.Base.{
  List, Bool, true, false, not, ◌≡◌, ◌⊎◌, ◌==◌, ◌||◌, refl, inl, inr, arith, any, All, Elem,
  Elem-keep, kept_of_Elem, every_of_Elem, Bool-cases, keep, count_is_zero,
}
use messenger_backend.Database.Models.{Uuid}
use messenger_backend.Database.Errors.{uuid}
use messenger_backend.Database.Tables.{Db, has_user, same_id}
use messenger_backend.Database.Sql.{of_user, execute, without_user}
use messenger_backend.Database.Queries
use messenger_backend.Database.Queries.{run}
use messenger_backend.Effects.{World, ok, err, database_error, service, effects}
use messenger_backend.External.{External}
use messenger_backend.Services.Errors.{user_not_found}
use messenger_backend.Services.User.{delete_account}
use messenger_backend.Services.Translation.{handle_db_not_found_error}

-- A table before and after: no row that passes the test is left, every other row is, and none is new.
pub record IsCleared {A : Type 0} (names : A → Bool) (old new : List A) : Type 0 where
  pub gone : All (λ a. (names a ≡ false) × Elem a old) new
  pub kept : All (λ a. (names a ≡ true) ⊎ Elem a new) old

-- The user is in no table any more, and what does not name the user is as before.
pub record IsForgotten (i : Uuid) (old new : Db) : Type 0 where
  pub users : IsCleared (λ u. u.user_id == i) old.users new.users
  pub friendships :
      IsCleared
        (λ f. (f.requester_id == i) || (f.addressee_id == i))
        old.friendships
        new.friendships
  pub access_tokens : IsCleared (λ t. t.user_id == i) old.access_tokens new.access_tokens
  pub refresh_tokens : IsCleared (λ t. t.user_id == i) old.refresh_tokens new.refresh_tokens
  pub groups : new.groups ≡ old.groups
  pub memberships : IsCleared (λ m. m.user_id == i) old.memberships new.memberships
  pub direct_messages :
      IsCleared
        (λ m. (m.sender_id == i) || (m.recipient_id == i))
        old.direct_messages
        new.direct_messages
  pub group_messages : IsCleared (λ m. m.sender_id == i) old.group_messages new.group_messages

keep-IsCleared :
    {A : Type 0} (names : A → Bool) (l : List A) → IsCleared names l (keep (λ a. not (names a)) l)
keep-IsCleared names l = record {
  gone =
      every_of_Elem _ _
        (λ a m. let (old, p) = Elem-keep (λ a. not (names a)) l m in (ground (arith, p), old));
  kept = every_of_Elem _ l (λ a m. elim (Bool-cases (names a)) [
    | inl named ↦ inl named
    | inr other ↦ inr (kept_of_Elem (λ a. not (names a)) l m (ground (arith, other)))
  ]);
}

without_user-IsForgotten : (i : Uuid) (db : Db) → IsForgotten i db (without_user i db)
without_user-IsForgotten i db = record {
  users = keep-IsCleared _ db.users;
  friendships = keep-IsCleared _ db.friendships;
  access_tokens = keep-IsCleared _ db.access_tokens;
  refresh_tokens = keep-IsCleared _ db.refresh_tokens;
  groups = refl;
  memberships = keep-IsCleared _ db.memberships;
  direct_messages = keep-IsCleared _ db.direct_messages;
  group_messages = keep-IsCleared _ db.group_messages;
}

-- The deletion of an account ends in one of three ways. Without a row of the account it is refused,
-- and with a group that the account has created it ends with a database error; nothing is changed
-- then. Otherwise it succeeds and changes the tables only: in none is a row left that names the
-- account, in each every other row is kept and no row is new, and the groups are as they were.
pub delete_account_outcome :
    ⦃x : External⦄ (i : Uuid) (w : World)
    → ((has_user w.db.users i ≡ false)
        × (delete_account i w ≡ (err (service (user_not_found (uuid i))), w)))
      ⊎ (((has_user w.db.users i ≡ true)
            × (any (λ g. same_id g.created_by i) w.db.groups ≡ true)
            × (delete_account i w ≡ (err database_error, w)))
          ⊎ ((has_user w.db.users i ≡ true)
              × (any (λ g. same_id g.created_by i) w.db.groups ≡ false)
              × ((new : Db) × (delete_account i w ≡ (ok tt, record w { db = new }))
                  × IsForgotten i w.db new)))
unfolding delete_account handle_db_not_found_error Queries.delete_user run execute effects
delete_account_outcome i w = elim (Bool-cases (has_user w.db.users i)) [
  | inr absent ↦ inl (absent, ground (arith, count_is_zero (of_user i) w.db.users))
  | inl stored ↦ inr (elim (Bool-cases (any (λ g. same_id g.created_by i) w.db.groups)) [
    | inl created ↦ inl (stored, created, ground (arith, count_is_zero (of_user i) w.db.users))
    | inr free ↦
        let ends : delete_account i w ≡ (ok tt, record w { db = without_user i w.db }) =
          ground (arith, count_is_zero (of_user i) w.db.users) in
        inr (stored, free, (without_user i w.db, ends, without_user-IsForgotten i w.db))
  ])
]
