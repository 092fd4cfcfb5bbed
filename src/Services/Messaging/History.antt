-- ===== src/Services/Messaging/History.antt =====
-- A page of a history, `get_dm_history` and `get_group_history` of src/services/messaging.py with
-- the queries of src/database/sql.py.
use messenger_backend.Base.{
  ℕ, zero, suc, ◌≤◌, ◌≡◌, ◌∙◌, refl, true, Bool, Option, List, [], ◌∷◌, ◌++◌, not, ◌||◌, arith,
  keep, All, All-keep_holds, All-imp, count, length,
}
use messenger_backend.Database.Models.{Uuid, Timestamp, DirectMessage, GroupMessage}
use messenger_backend.Database.Fetch.{
  dm_conversation_history, group_messages_timeline, sent_before, posted_before, take,
}
use messenger_backend.Database.Queries
use messenger_backend.Database.Queries.{found}
use messenger_backend.Effects.{World, ok, effects}
use messenger_backend.External.{External, IsNewestFirst}
use messenger_backend.Services.Messaging.{get_dm_history, get_group_history, cutoff}
use messenger_backend.Services.Request.{Request}
use messenger_backend.Services.Translation.{handle_db_constraint_error, handle_db_not_found_error}

module _ {A : Type 0} where
  length-take : (n : ℕ) (l : List A) → length (take n l) ≤ n
  length-take zero l = ground arith
  length-take (suc n) [] = ground arith
  length-take (suc n) (x ∷ l) = ground (arith, length-take n l)

  All-take : (P : A → Type 0) (n : ℕ) (l : List A) → All P l → All P (take n l)
  All-take P zero l h = tt
  All-take P (suc n) [] h = h
  All-take P (suc n) (x ∷ l) h = (h.0, All-take P n l h.1)

  All-++ : (P : A → Type 0) (l m : List A) → All P l → All P m → All P (l ++ m)
  All-++ P [] m h k = k
  All-++ P (x ∷ l) m h k = (h.0, All-++ P l m h.1 k)

  take-IsNewestFirst :
      (at : A → ℕ) (n : ℕ) (l : List A) → IsNewestFirst at l → IsNewestFirst at (take n l)
  take-IsNewestFirst at zero l h = tt
  take-IsNewestFirst at (suc n) [] h = h
  take-IsNewestFirst at (suc zero) (x ∷ []) h = h
  take-IsNewestFirst at (suc zero) (x ∷ y ∷ l) h = tt
  take-IsNewestFirst at (suc (suc n)) (x ∷ []) h = h
  take-IsNewestFirst at (suc (suc n)) (x ∷ y ∷ l) h =
      (h.0, take-IsNewestFirst at (suc n) (y ∷ l) h.1)

  All-count : (p : A → Bool) (l : List A) → count (λ a. not (p a)) l ≡ 0 → All (λ a. p a ≡ true) l
  All-count p [] h = tt
  All-count p (x ∷ l) h = (ground arith, All-count p l (ground arith))

  count-All : (p : A → Bool) (l : List A) → All (λ a. p a ≡ true) l → count (λ a. not (p a)) l ≡ 0
  count-All p [] h = refl
  count-All p (x ∷ l) h = ground (arith, h.0, count-All p l h.1)

-- In the conversation of the two, in either direction, before the instant.
abbrev pub is_exchanged : Uuid → Uuid → Timestamp → DirectMessage → Bool
is_exchanged a b t m = sent_before a b t m || sent_before b a t m

module _ ⦃x : External⦄ (req : Request) (actor_id : Uuid) (w : World) (before : Option Timestamp)
    (limit : ℕ) where
  pub dm_page :
      (recipient_id : Uuid) {l : List DirectMessage} {w' : World}
      → get_dm_history req actor_id recipient_id before limit w ≡ (ok l, w')
      → (l ≡ dm_conversation_history actor_id recipient_id (cutoff req before) limit w.db)
        × (w' ≡ w)
  unfolding get_dm_history handle_db_constraint_error handle_db_not_found_error
      Queries.get_friendship_status Queries.get_dm_conversation_history found effects
  dm_page recipient_id h = ground arith

  pub group_page :
      (group_id : Uuid) {l : List GroupMessage} {w' : World}
      → get_group_history req actor_id group_id before limit w ≡ (ok l, w')
      → (l ≡ group_messages_timeline group_id (cutoff req before) limit w.db) × (w' ≡ w)
  unfolding get_group_history handle_db_constraint_error handle_db_not_found_error
      Queries.get_membership Queries.get_group_messages_timeline found effects
  group_page group_id h = ground arith

  order_dms-All :
      (p : DirectMessage → Bool) (l : List DirectMessage)
      → All (λ m. p m ≡ true) l
      → All (λ m. p m ≡ true) (x.order_dms l)
  order_dms-All p l h =
      All-count p (x.order_dms l) (x.order_dms_count (λ m. not (p m)) l ∙ count-All p l h)

  -- A page of a direct conversation has at most the asked number of messages, all exchanged between
  -- the two before the cutoff, from the newest to the oldest, and reading it changes nothing.
  pub dm_history_page :
      (recipient_id : Uuid) {l : List DirectMessage} {w' : World}
      → get_dm_history req actor_id recipient_id before limit w ≡ (ok l, w')
      → (length l ≤ limit)
        × All (λ m. is_exchanged actor_id recipient_id (cutoff req before) m ≡ true) l
        × IsNewestFirst (λ m. m.created_at) l
        × (w' ≡ w)
  unfolding dm_conversation_history
  dm_history_page recipient_id h =
      let (e, same) = dm_page recipient_id h in
      let t = cutoff req before in
      let p = is_exchanged actor_id recipient_id t in
      let there = keep (sent_before actor_id recipient_id t) w.db.direct_messages in
      let back = keep (sent_before recipient_id actor_id t) w.db.direct_messages in
      let both = take limit (x.order_dms there) ++ take limit (x.order_dms back) in
      (
        rw e (length-take limit (x.order_dms both)),
        rw e (
            All-take _ limit (x.order_dms both) (
              order_dms-All p both (
                All-++ _ (take limit (x.order_dms there)) _
                  (All-take _ limit _ (
                    order_dms-All p there (
                      All-imp _ _ (λ m k. ground arith) there
                        (All-keep_holds (sent_before actor_id recipient_id t)
                          w.db.direct_messages))))
                  (All-take _ limit _ (
                    order_dms-All p back (
                      All-imp _ _ (λ m k. ground arith) back
                        (All-keep_holds (sent_before recipient_id actor_id t)
                          w.db.direct_messages))))))),
        rw e (take-IsNewestFirst _ limit (x.order_dms both) (x.order_dms_newest both)),
        same,
      )

  -- A page of a group's history has at most the asked number of messages, all posted to the group
  -- before the cutoff, from the newest to the oldest, and reading it changes nothing.
  pub group_history_page :
      (group_id : Uuid) {l : List GroupMessage} {w' : World}
      → get_group_history req actor_id group_id before limit w ≡ (ok l, w')
      → (length l ≤ limit)
        × All (λ m. posted_before group_id (cutoff req before) m ≡ true) l
        × IsNewestFirst (λ m. m.created_at) l
        × (w' ≡ w)
  unfolding group_messages_timeline
  group_history_page group_id h =
      let (e, same) = group_page group_id h in
      let p = posted_before group_id (cutoff req before) in
      let posted = keep p w.db.group_messages in
      (
        rw e (length-take limit (x.order_group_messages posted)),
        rw e (
            All-take _ limit (x.order_group_messages posted) (
              All-count p (x.order_group_messages posted) (
                x.order_group_messages_count (λ m. not (p m)) posted
                ∙ count-All p posted (All-keep_holds p w.db.group_messages)))),
        rw e (
            take-IsNewestFirst _ limit (x.order_group_messages posted)
              (x.order_group_messages_newest posted)),
        same,
      )
