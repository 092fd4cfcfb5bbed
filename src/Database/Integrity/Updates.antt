-- ===== src/Database/Integrity/Updates.antt =====
-- An UPDATE changes no key, and so keeps the schema's integrity.
use messenger_backend.Base.{
  ◌≡◌, refl, ◌∙◌, Bool, ◌==◌, All-update, Distinct-update, any-update, update,
}
use messenger_backend.Database.Models.{User, Friendship, Token}
use messenger_backend.Database.Tables.{
  Db, IsConsistent, same_user, same_username, same_friendship, same_token,
}
use messenger_backend.Database.Sql.{revoke}
use messenger_backend.Database.Integrity.Growth.{HasReferences-users}

module _ (db : Db) (c : IsConsistent db) where
  -- An update of users that leaves the identifier and the name alone.
  pub update_users-IsConsistent :
      (p : User → Bool) (f : User → User)
      → ((u : User) → (f u).user_id ≡ u.user_id)
      → ((u : User) → (f u).username ≡ u.username)
      → IsConsistent (record db { users = update p f db.users })
  update_users-IsConsistent p f id name = record {
    keys = assumption (
      Distinct-update p f same_user (λ a b. rw (id a)) (λ a b. rw (id b)) db.users c.keys.users,
      Distinct-update p f same_username (λ a b. rw (name a)) (λ a b. rw (name b)) db.users
          c.keys.usernames,
    );
    references =
        HasReferences-users db c.references (update p f db.users)
          (λ i m. any-update p f (λ u. u.user_id == i) (λ u. rw (id u)) db.users ∙ m);
  }

  -- An update of friendships that leaves both users alone.
  pub update_friendships-IsConsistent :
      (p : Friendship → Bool) (f : Friendship → Friendship)
      → ((r : Friendship) → (f r).requester_id ≡ r.requester_id)
      → ((r : Friendship) → (f r).addressee_id ≡ r.addressee_id)
      → IsConsistent (record db { friendships = update p f db.friendships })
  update_friendships-IsConsistent p f from to = assumption (
    Distinct-update p f same_friendship (λ a b. rw (from a, to a)) (λ a b. rw (from b, to b))
        db.friendships c.keys.friendships,
    All-update p f _ (λ r h. rw (from r) h) db.friendships c.references.requesters,
    All-update p f _ (λ r h. rw (to r) h) db.friendships c.references.addressees,
  )

  pub revoke_access-IsConsistent :
      (p : Token → Bool)
      → IsConsistent (record db { access_tokens = update p revoke db.access_tokens })
  revoke_access-IsConsistent p = assumption (
    Distinct-update p revoke same_token (λ a b. refl) (λ a b. refl) db.access_tokens
        c.keys.access_tokens,
    All-update p revoke _ (λ t h. h) db.access_tokens c.references.access_users,
  )

  pub revoke_refresh-IsConsistent :
      (p : Token → Bool)
      → IsConsistent (record db { refresh_tokens = update p revoke db.refresh_tokens })
  revoke_refresh-IsConsistent p = assumption (
    Distinct-update p revoke same_token (λ a b. refl) (λ a b. refl) db.refresh_tokens
        c.keys.refresh_tokens,
    All-update p revoke _ (λ t h. h) db.refresh_tokens c.references.refresh_users,
  )
