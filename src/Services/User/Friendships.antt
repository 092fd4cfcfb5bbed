-- ===== src/Services/User/Friendships.antt =====
-- The friendships of src/services/user.py as a state machine: what requests, acceptances and removals
-- do to the relation between each two users, whatever the rows.
pub mod Rows
use messenger_backend.Base.{
  ◌≡◌, refl, Bool, true, false, not, ◌&&◌, ◌||◌, Option, none, some, is_none, List, [], ◌∷◌, ◌==◌,
  if◌then◌else◌, arith, any, find, keep, update, count_is_zero, All,
}
use mathlib.Core.Path.{fun_ext}
use messenger_backend.Database.Enums.{pk_friendships}
use messenger_backend.Database.Models.{Uuid, Timestamp, Friendship}
use messenger_backend.Database.Errors.{uuid, uuids}
use messenger_backend.Database.Tables.{Db, has_user}
use messenger_backend.Database.Sql.{from_to, between, execute, insert, violated}
use messenger_backend.Database.Queries
use messenger_backend.Database.Queries.{run}
use messenger_backend.Effects.{World, Result, M, ok, err, service, effects}
use messenger_backend.External.{External}
use messenger_backend.Services.Errors.{
  self_friendship, friend_request_already_exists, friend_request_not_found,
}
use messenger_backend.Services.User.{
  send_friend_request, accept_friend_request, remove_or_decline_friendship,
}
use messenger_backend.Services.Translation.{handle_db_constraint_error, handle_db_not_found_error}
use messenger_backend.Services.User.Friendships.Rows.{
  Relation, accepted_of, relation, is_pair, any-relation, any-between, relation-update,
  relation-keep,
}

pub data FriendOp : Type 0 where
  send : Uuid → Uuid → FriendOp
  accept : Uuid → Uuid → FriendOp
  remove : Uuid → Uuid → FriendOp

-- The service call, by the user named first.
unfoldable pub perform : ⦃x : External⦄ → Timestamp → FriendOp → M (Unit {0})
perform now (send requester addressee) = send_friend_request now requester addressee
perform now (accept addressee requester) = accept_friend_request now addressee requester
perform now (remove a b) = remove_or_decline_friendship a b

abbrev pub set : Uuid → Uuid → Option Bool → Relation → Relation
set a b v f c d = if is_pair a b c d then v else f c d

abbrev pub is_related : Relation → Uuid → Uuid → Bool
is_related f a b = not (is_none (f a b))

-- The state machine: how a call ends, and the relation afterwards.
unfoldable pub specified : FriendOp → Relation → Result (Unit {0}) × Relation
specified (send a b) f =
    if a == b
    then (err (service self_friendship), f)
    else if is_related f a b
    then (err (service (friend_request_already_exists (uuid b))), f)
    else (ok tt, set a b (some false) f)
specified (accept b a) f =
    if is_related f a b
    then (ok tt, set a b (some true) f)
    else (err (service (friend_request_not_found (uuids a b))), f)
specified (remove a b) f =
    if is_related f a b || is_related f b a
    then (ok tt, set a b none (set b a none f))
    else (err (service (friend_request_not_found (uuids a b))), f)

-- The users whom a call relates are stored.
abbrev pub AreKnown : FriendOp → Db → Type 0
AreKnown (send a b) db = (has_user db.users a ≡ true) × (has_user db.users b ≡ true)
AreKnown _ db = Unit

module _ ⦃x : External⦄ where
  send-reply :
      (now : Timestamp) (a b : Uuid) (w : World)
      → has_user w.db.users a ≡ true
      → has_user w.db.users b ≡ true
      → (perform now (send a b) w).0 ≡ (specified (send a b) (relation w.db)).0
  unfolding perform specified send_friend_request handle_db_constraint_error
      Queries.send_friend_request run execute insert violated effects
  send-reply now a b w known known' =
      ground (arith, any-relation a b w.db.friendships, x.report_Elem pk_friendships [])

  accept-reply :
      (now : Timestamp) (a b : Uuid) (w : World)
      → (perform now (accept b a) w).0 ≡ (specified (accept b a) (relation w.db)).0
  unfolding perform specified accept_friend_request handle_db_not_found_error
      Queries.accept_friend_request run execute effects
  accept-reply now a b w =
      ground
        (arith, any-relation a b w.db.friendships, count_is_zero (from_to a b) w.db.friendships)

  remove-reply :
      (now : Timestamp) (a b : Uuid) (w : World)
      → (perform now (remove a b) w).0 ≡ (specified (remove a b) (relation w.db)).0
  unfolding perform specified remove_or_decline_friendship handle_db_not_found_error
      Queries.remove_friendship run execute effects
  remove-reply now a b w = ground (
    arith,
    any-relation a b w.db.friendships,
    any-relation b a w.db.friendships,
    any-between a b w.db.friendships,
    count_is_zero (between a b) w.db.friendships,
  )

  send-relation :
      (now : Timestamp) (a b c d : Uuid) (w : World)
      → has_user w.db.users a ≡ true
      → has_user w.db.users b ≡ true
      → relation (perform now (send a b) w).1.db c d ≡ (specified (send a b) (relation w.db)).1 c d
  unfolding perform specified send_friend_request handle_db_constraint_error
      Queries.send_friend_request run execute insert violated effects
  send-relation now a b c d w known known' = ground (arith, any-relation a b w.db.friendships)

  accept-relation :
      (now : Timestamp) (a b c d : Uuid) (w : World)
      → relation (perform now (accept b a) w).1.db c d
        ≡ (specified (accept b a) (relation w.db)).1 c d
  unfolding perform specified accept_friend_request handle_db_not_found_error
      Queries.accept_friend_request run execute effects
  accept-relation now a b c d w = ground (
    arith,
    any-relation a b w.db.friendships,
    count_is_zero (from_to a b) w.db.friendships,
    relation-update a b c d now w.db.friendships,
  )

  remove-relation :
      (now : Timestamp) (a b c d : Uuid) (w : World)
      → relation (perform now (remove a b) w).1.db c d
        ≡ (specified (remove a b) (relation w.db)).1 c d
  unfolding perform specified remove_or_decline_friendship handle_db_not_found_error
      Queries.remove_friendship run execute effects
  remove-relation now a b c d w = ground (
    arith,
    any-relation a b w.db.friendships,
    any-relation b a w.db.friendships,
    any-between a b w.db.friendships,
    count_is_zero (between a b) w.db.friendships,
    relation-keep a b c d w.db.friendships,
  )

  perform-users :
      (now : Timestamp) (o : FriendOp) (w : World) → (perform now o w).1.db.users ≡ w.db.users
  unfolding perform send_friend_request accept_friend_request remove_or_decline_friendship
      handle_db_constraint_error handle_db_not_found_error Queries.send_friend_request
      Queries.accept_friend_request Queries.remove_friendship run execute insert violated effects
  perform-users now (send a b) w = ground arith
  perform-users now (accept a b) w = ground arith
  perform-users now (remove a b) w = ground arith

  perform-reply :
      (now : Timestamp) (o : FriendOp) (w : World)
      → AreKnown o w.db
      → (perform now o w).0 ≡ (specified o (relation w.db)).0
  perform-reply now (send a b) w k = send-reply now a b w k.0 k.1
  perform-reply now (accept b a) w k = accept-reply now a b w
  perform-reply now (remove a b) w k = remove-reply now a b w

  perform-relation :
      (now : Timestamp) (o : FriendOp) (w : World)
      → AreKnown o w.db
      → relation (perform now o w).1.db ≡ (specified o (relation w.db)).1
  perform-relation now (send a b) w k =
      fun_ext λ c. fun_ext λ d. send-relation now a b c d w k.0 k.1
  perform-relation now (accept b a) w k = fun_ext λ c. fun_ext λ d. accept-relation now a b c d w
  perform-relation now (remove a b) w k = fun_ext λ c. fun_ext λ d. remove-relation now a b c d w

abbrev pub Calls : Type 0
Calls = List (Timestamp × FriendOp)

-- The calls one after the other, with their replies.
unfoldable pub perform_all : ⦃x : External⦄ → Calls → World → List (Result (Unit {0})) × World
perform_all [] w = ([], w)
perform_all ((now, o) ∷ ops) w =
    let (r, v) = perform now o w in let (rs, u) = perform_all ops v in (r ∷ rs, u)

unfoldable pub specified_all : Calls → Relation → List (Result (Unit {0})) × Relation
specified_all [] f = ([], f)
specified_all ((now, o) ∷ ops) f =
    let (r, g) = specified o f in let (rs, h) = specified_all ops g in (r ∷ rs, h)

abbrev pub AllKnown : Calls → Db → Type 0
AllKnown calls db = All (λ c. AreKnown c.1 db) calls

still-AreKnown :
    (o : FriendOp) (db db' : Db) → db'.users ≡ db.users → AreKnown o db → AreKnown o db'
still-AreKnown (send a b) db db' e k = (rw e k.0, rw e k.1)
still-AreKnown (accept a b) db db' e k = tt
still-AreKnown (remove a b) db db' e k = tt

still-AllKnown :
    (calls : Calls) (db db' : Db) → db'.users ≡ db.users → AllKnown calls db → AllKnown calls db'
still-AllKnown [] db db' e k = k
still-AllKnown (c ∷ calls) db db' e k =
    (still-AreKnown c.1 db db' e k.0, still-AllKnown calls db db' e k.1)

-- Friendships refine a state machine on pairs of users. Any sequence of friend requests between
-- stored users, acceptances and removals ends, call by call, as the state machine says, with the
-- errors for a request to oneself, a request twice and a missing relation, and leaves the relation
-- of every two users as the state machine does.
pub friendships_refine :
    ⦃x : External⦄ (calls : Calls) (w : World)
    → AllKnown calls w.db
    → ((perform_all calls w).0 ≡ (specified_all calls (relation w.db)).0)
      × (relation (perform_all calls w).1.db ≡ (specified_all calls (relation w.db)).1)
unfolding perform_all specified_all
friendships_refine [] w k = (refl, refl)
friendships_refine ((now, o) ∷ ops) w k =
    let v = (perform now o w).1 in
    let (replies, after) =
      friendships_refine ops v (still-AllKnown ops w.db v.db (perform-users now o w) k.1) in
    let same = perform-relation now o w k.0 in
    (cc (perform-reply now o w k.0, rw same at replies), rw same at after)
