-- ===== src/Database/Integrity.antt =====
-- The schema's integrity under the statements of src/database/sql.py: the keys and references that
-- EnsureTableExists declares hold after every statement, so that no code path can lose them.
mod Growth
mod Inserts
mod Updates
mod Deletes
use messenger_backend.Base.{
  ℕ, ◌≡◌, refl, ◌⊎◌, inl, inr, true, false, ◌&&◌, if◌then◌else◌, any, arith, Bool-cases,
}
use messenger_backend.Database.Models.{User, Friendship}
use messenger_backend.Database.Tables.{Db, IsConsistent, has_user, same_id}
use messenger_backend.Database.Sql.{
  Statement, insert_user, deactivate_user, reactivate_user, change_password, send_friend_request,
  accept_friend_request, insert_access_token, insert_refresh_token, revoke_access_token,
  revoke_refresh_token, revoke_all_user_access_tokens, revoke_all_user_refresh_tokens, create_group,
  add_group_member, send_dm, send_group_message, delete_user, remove_friendship,
  expired_access_tokens, expired_refresh_tokens, delete_group, remove_group_member, Outcome, done,
  fails, execute, without_user, without_group, group_of,
}
use messenger_backend.External.{External}
use Inserts.{
  insert_user-IsConsistent, send_friend_request-IsConsistent, insert_access_token-IsConsistent,
  insert_refresh_token-IsConsistent, create_group-IsConsistent, add_group_member-IsConsistent,
  send_dm-IsConsistent, send_group_message-IsConsistent,
}
use Updates.{
  update_users-IsConsistent, update_friendships-IsConsistent, revoke_access-IsConsistent,
  revoke_refresh-IsConsistent,
}
use Deletes.{
  without_user-IsConsistent, without_group-IsConsistent, keep_friendships-IsConsistent,
  keep_access_tokens-IsConsistent, keep_refresh_tokens-IsConsistent, keep_memberships-IsConsistent,
}

-- The tables of a command that was done.
done_db : (m n : ℕ) (d d' : Db) → done m d ≡ done n d' → d ≡ d'
done_db m n d d' h = cc

after_done :
    (m : ℕ) (d : Db) {n : ℕ} {d' : Db} → done m d ≡ done n d' → IsConsistent d → IsConsistent d'
after_done m d {n} {d'} h c = rw (done_db m n d d' h) at c

module _ ⦃x : External⦄ (db : Db) (c : IsConsistent db) {n : ℕ} {db' : Db} where
  delete_user-IsConsistent : (i : ℕ) → execute (delete_user i) db ≡ done n db' → IsConsistent db'
  unfolding execute
  delete_user-IsConsistent i h = elim (Bool-cases (has_user db.users i)) [
    | inr absent ↦ after_done _ db (rw absent at h) c
    | inl there ↦ elim (Bool-cases (any (λ g. same_id g.created_by i) db.groups)) [
      | inl owns ↦ ground (arith, there, owns)
      | inr no_groups ↦
          after_done _ (without_user i db) (rw (there, no_groups) at h)
            (without_user-IsConsistent db c i no_groups)
    ]
  ]

  delete_group-IsConsistent :
      (i creator : ℕ) → execute (delete_group i creator) db ≡ done n db' → IsConsistent db'
  unfolding execute
  delete_group-IsConsistent i creator h = elim (Bool-cases (any (group_of i creator) db.groups)) [
    | inl there ↦
        after_done _ (without_group i db) (rw there at h) (without_group-IsConsistent db c i)
    | inr absent ↦ after_done _ db (rw absent at h) c
  ]

  -- From consistent tables, every statement that PostgreSQL accepts leads to consistent tables.
  pub execute-IsConsistent : (s : Statement) → execute s db ≡ done n db' → IsConsistent db'
  unfolding execute
  execute-IsConsistent (insert_user u) h = insert_user-IsConsistent db c u h
  execute-IsConsistent (deactivate_user i) h =
      after_done _ _ h (update_users-IsConsistent db c _ _ (λ u. refl) (λ u. refl))
  execute-IsConsistent (reactivate_user i) h =
      after_done _ _ h (update_users-IsConsistent db c _ _ (λ u. refl) (λ u. refl))
  execute-IsConsistent (change_password new i old) h = after_done _ _ h (
      update_users-IsConsistent db c _ (λ u. record u { password_hash = new }) (λ u. refl)
        (λ u. refl))
  execute-IsConsistent (send_friend_request a b now) h =
      send_friend_request-IsConsistent db c a b now h
  execute-IsConsistent (accept_friend_request a b now) h = after_done _ _ h (
      update_friendships-IsConsistent db c _ (λ f. record f { accepted = true; updated_at = now })
        (λ f. refl) (λ f. refl))
  execute-IsConsistent (insert_access_token t) h = insert_access_token-IsConsistent db c t h
  execute-IsConsistent (insert_refresh_token t) h = insert_refresh_token-IsConsistent db c t h
  execute-IsConsistent (revoke_access_token k) h =
      after_done _ _ h (revoke_access-IsConsistent db c _)
  execute-IsConsistent (revoke_refresh_token k) h =
      after_done _ _ h (revoke_refresh-IsConsistent db c _)
  execute-IsConsistent (revoke_all_user_access_tokens i) h =
      after_done _ _ h (revoke_access-IsConsistent db c _)
  execute-IsConsistent (revoke_all_user_refresh_tokens i) h =
      after_done _ _ h (revoke_refresh-IsConsistent db c _)
  execute-IsConsistent (create_group g) h = create_group-IsConsistent db c g h
  execute-IsConsistent (add_group_member m) h = add_group_member-IsConsistent db c m h
  execute-IsConsistent (send_dm m) h = send_dm-IsConsistent db c m h
  execute-IsConsistent (send_group_message m) h = send_group_message-IsConsistent db c m h
  execute-IsConsistent (delete_user i) h = delete_user-IsConsistent i h
  execute-IsConsistent (remove_friendship a b) h =
      after_done _ _ h (keep_friendships-IsConsistent db c _)
  execute-IsConsistent (expired_access_tokens now) h =
      after_done _ _ h (keep_access_tokens-IsConsistent db c _)
  execute-IsConsistent (expired_refresh_tokens now) h =
      after_done _ _ h (keep_refresh_tokens-IsConsistent db c _)
  execute-IsConsistent (delete_group i creator) h = delete_group-IsConsistent i creator h
  execute-IsConsistent (remove_group_member g u) h =
      after_done _ _ h (keep_memberships-IsConsistent db c _)
