-- ===== src/Database/Integrity/Inserts.antt =====
-- An INSERT that PostgreSQL accepts keeps the schema's integrity.
use messenger_backend.Base.{
  ℕ, ◌≡◌, refl, true, false, Bool, List, [], ◌∷◌, not, arith, All, All-imp, inl, inr, is_none,
  Bool-cases,
}
use messenger_backend.Database.Models.{
  Uuid, User, Token, Group, Membership, DirectMessage, GroupMessage,
}
use messenger_backend.Database.Enums.{Constraint}
use messenger_backend.Database.Tables.{Db, has_group, IsConsistent}
use messenger_backend.Database.Sql.{
  insert_user, send_friend_request, insert_access_token, insert_refresh_token, create_group,
  add_group_member, send_dm, send_group_message, done, violated, insert, execute,
}
use messenger_backend.Database.Integrity.Growth.{HasReferences-users}
use messenger_backend.External.{External}

not-false : (b : Bool) → not b ≡ false → b ≡ true
not-false b h = ground arith

-- The memberships and messages of the other groups keep their group.
grown_group :
    (l : List Group) (g : Group) (i : Uuid) → has_group l i ≡ true → has_group (g ∷ l) i ≡ true
grown_group l g i m = ground arith

module _ ⦃x : External⦄ where
  -- An accepted row violates none of the constraints that were tested.
  insert-done :
      (tests : List (Bool × Constraint)) (d : Db) {n : ℕ} {db' : Db}
      → insert (violated tests) d ≡ done n db'
      → All (λ t. t.0 ≡ false) tests × (d ≡ db')
  unfolding insert violated
  insert-done [] d h = (tt, ground arith)
  insert-done ((true, c) ∷ tests) d h = ground arith
  insert-done ((false, c) ∷ tests) d h =
      let (clear, e) = insert-done tests d h in ((refl, clear), e)

  module _ (db : Db) (c : IsConsistent db) {n : ℕ} {db' : Db} where
    pub insert_user-IsConsistent :
        (u : User) → execute (insert_user u) db ≡ done n db' → IsConsistent db'
    unfolding execute
    insert_user-IsConsistent u h =
        let (clear, e) = insert-done _ _ h in
        rw (← e) (record {
          keys = assumption (clear, c);
          references = HasReferences-users db c.references (u ∷ db.users) (λ i m. ground arith);
        })

    pub send_friend_request-IsConsistent :
        (a b now : ℕ) → execute (send_friend_request a b now) db ≡ done n db' → IsConsistent db'
    unfolding execute
    send_friend_request-IsConsistent a b now h =
        let (clear, e) = insert-done _ _ h in
        rw (← e) (assumption (not-false _ clear.1.0, not-false _ clear.1.1.0))

    pub insert_access_token-IsConsistent :
        (t : Token) → execute (insert_access_token t) db ≡ done n db' → IsConsistent db'
    unfolding execute
    insert_access_token-IsConsistent t h =
        let (clear, e) = insert-done _ _ h in rw (← e) (assumption (not-false _ clear.1.0))

    pub insert_refresh_token-IsConsistent :
        (t : Token) → execute (insert_refresh_token t) db ≡ done n db' → IsConsistent db'
    unfolding execute
    insert_refresh_token-IsConsistent t h =
        let (clear, e) = insert-done _ _ h in rw (← e) (assumption (not-false _ clear.1.0))

    pub create_group-IsConsistent :
        (g : Group) → execute (create_group g) db ≡ done n db' → IsConsistent db'
    unfolding execute
    create_group-IsConsistent g h = elim (Bool-cases (is_none g.created_by)) [
      | inl null ↦ ground arith
      | inr given ↦
          let (clear, e) = insert-done _ _ (rw given at h) in
          rw (← e) (
            assumption (
              not-false _ clear.1.0,
              All-imp _ _ (λ m. grown_group db.groups g m.group_id) db.memberships
                  c.references.member_groups,
              All-imp _ _ (λ m. grown_group db.groups g m.group_id) db.group_messages
                  c.references.message_groups,
            ))
    ]

    pub add_group_member-IsConsistent :
        (m : Membership) → execute (add_group_member m) db ≡ done n db' → IsConsistent db'
    unfolding execute
    add_group_member-IsConsistent m h =
        let (clear, e) = insert-done _ _ h in
        rw (← e) (assumption (not-false _ clear.1.0, not-false _ clear.1.1.0))

    pub send_dm-IsConsistent :
        (m : DirectMessage) → execute (send_dm m) db ≡ done n db' → IsConsistent db'
    unfolding execute
    send_dm-IsConsistent m h =
        let (clear, e) = insert-done _ _ h in
        rw (← e) (assumption (not-false _ clear.1.0, not-false _ clear.1.1.0))

    pub send_group_message-IsConsistent :
        (m : GroupMessage) → execute (send_group_message m) db ≡ done n db' → IsConsistent db'
    unfolding execute
    send_group_message-IsConsistent m h =
        let (clear, e) = insert-done _ _ h in
        rw (← e) (assumption (not-false _ clear.1.0, not-false _ clear.1.1.0))
