-- ===== src/Services/Messaging/Completeness.antt =====
-- What a page of a history leaves out, in src/services/messaging.py with the queries of
-- src/database/sql.py.
use messenger_backend.Base.{
  ℕ, ◌+◌, ◌≤◌, ◌≡◌, refl, ◌⊎◌, inl, inr, true, Bool, Option, List, ◌++◌, ◌&&◌, ◌==◌, arith, keep,
  All, any, count, length, Elem, Bool-cases,
}
use messenger_backend.Database.Models.{Uuid, Timestamp, DirectMessage, GroupMessage}
use messenger_backend.Database.Fetch.{
  take, dm_conversation_history, group_messages_timeline, sent_before, posted_before,
}
use messenger_backend.Effects.{World, ok}
use messenger_backend.External.{External, IsNewestFirst}
use messenger_backend.Services.Messaging.{get_dm_history, get_group_history, cutoff}
use messenger_backend.Services.Messaging.History.{
  dm_page, group_page, is_exchanged, dm_history_page,
}
use messenger_backend.Services.Messaging.Pages.{
  on_page, full_page, count_since, is_since, count-append, any_of_count, any_of_more, any-keep_both,
}
use messenger_backend.Services.Request.{Request}

-- The same message, by its identifier and its time.
abbrev pub is_message : DirectMessage → DirectMessage → Bool
is_message m r = (r.message_id == m.message_id) && (r.created_at == m.created_at)

abbrev pub is_group_message : GroupMessage → GroupMessage → Bool
is_group_message m r = (r.message_id == m.message_id) && (r.created_at == m.created_at)

module _ ⦃x : External⦄ (m : DirectMessage) (limit : ℕ) where
  exact : (r : DirectMessage) → is_message m r ≡ true → r.created_at ≡ m.created_at
  exact r h = ground arith

  -- The branch of the union that has the message brings it to the page, or fills the page.
  merged :
      (there branch other : List DirectMessage)
      → branch ≡ take limit (x.order_dms there)
      → any (is_message m) there ≡ true
      → (both : List DirectMessage)
      → ((p : DirectMessage → Bool) → count p both ≡ count p branch + count p other)
      → (any (is_message m) (take limit (x.order_dms both)) ≡ true)
        ⊎ ((length (take limit (x.order_dms both)) ≡ limit)
            × All (λ r. m.created_at ≤ r.created_at) (take limit (x.order_dms both)))
  merged there branch other e found both split =
      elim (on_page (λ r. r.created_at) m.created_at (is_message m) exact limit (x.order_dms there)
        (x.order_dms_newest there)
        (any_of_count (is_message m) there (x.order_dms there)
          (x.order_dms_count (is_message m) there) found)) [
            | inl kept ↦
                on_page (λ r. r.created_at) m.created_at (is_message m) exact limit
                  (x.order_dms both) (x.order_dms_newest both)
                  (any_of_count (is_message m) both (x.order_dms both)
                    (x.order_dms_count (is_message m) both)
                    (any_of_more (is_message m) branch both (omega (arith, split (is_message m)))
                      (rw e kept)))
            | inr full ↦ inr (
                full_page (λ r. r.created_at) m.created_at limit (x.order_dms both)
                  (x.order_dms_newest both) (enough (rw e full.0) (rw e full.1)))
          ]
    where
      enough :
          length branch ≡ limit
          → All (λ r. m.created_at ≤ r.created_at) branch
          → limit ≤ count (is_since (λ r. r.created_at) m.created_at) (x.order_dms both)
      enough full all = omega (
        arith,
        x.order_dms_count (is_since (λ r. r.created_at) m.created_at) both,
        split (is_since (λ r. r.created_at) m.created_at),
        count_since (λ r. r.created_at) m.created_at branch all,
      )

module _ ⦃x : External⦄ (req : Request) (actor_id : Uuid) (w : World) (before : Option Timestamp)
    (limit : ℕ) where
  -- Every stored message that fits is on the page.
  dm_leaves_out :
      (recipient_id : Uuid) {l : List DirectMessage} {w' : World} (m : DirectMessage)
      → get_dm_history req actor_id recipient_id before limit w ≡ (ok l, w')
      → Elem m w.db.direct_messages
      → is_exchanged actor_id recipient_id (cutoff req before) m ≡ true
      → (any (is_message m) l ≡ true)
        ⊎ ((length l ≡ limit) × All (λ r. m.created_at ≤ r.created_at) l)
  unfolding dm_conversation_history
  dm_leaves_out recipient_id m h stored exchanged =
      let (e, _) = dm_page req actor_id w before limit recipient_id h in
      let t = cutoff req before in
      let there = keep (sent_before actor_id recipient_id t) w.db.direct_messages in
      let back = keep (sent_before recipient_id actor_id t) w.db.direct_messages in
      let left = take limit (x.order_dms there) in
      let right = take limit (x.order_dms back) in
      rw e (elim (Bool-cases (sent_before actor_id recipient_id t m)) [
        | inl sent ↦
            merged m limit there left right refl
              (any-keep_both (is_message m) (sent_before actor_id recipient_id t)
                w.db.direct_messages stored sent (ground arith))
              (left ++ right) (λ p. count-append p left right)
        | inr other ↦
            merged m limit back right left refl
              (any-keep_both (is_message m) (sent_before recipient_id actor_id t)
                w.db.direct_messages stored (ground arith) (ground arith))
              (left ++ right) (λ p. omega (arith, count-append p left right))
      ])

  -- A page of a direct conversation has at most the asked number of messages, all exchanged between
  -- the two before the cutoff, from the newest to the oldest, and reading it changes nothing. It leaves
  -- out only what does not fit: every stored message that was exchanged between the two before the
  -- cutoff is on the page, by its identifier and time, or the page has as many messages as were asked
  -- for, none of them older than that message.
  pub dm_history_complete :
      (recipient_id : Uuid) {l : List DirectMessage} {w' : World} (m : DirectMessage)
      → get_dm_history req actor_id recipient_id before limit w ≡ (ok l, w')
      → Elem m w.db.direct_messages
      → is_exchanged actor_id recipient_id (cutoff req before) m ≡ true
      → ((length l ≤ limit)
          × All (λ r. is_exchanged actor_id recipient_id (cutoff req before) r ≡ true) l
          × IsNewestFirst (λ r. r.created_at) l
          × (w' ≡ w))
        × ((any (is_message m) l ≡ true)
            ⊎ ((length l ≡ limit) × All (λ r. m.created_at ≤ r.created_at) l))
  dm_history_complete recipient_id m h stored exchanged = (
    dm_history_page req actor_id w before limit recipient_id h,
    dm_leaves_out recipient_id m h stored exchanged,
  )

  group_exact : (m r : GroupMessage) → is_group_message m r ≡ true → r.created_at ≡ m.created_at
  group_exact m r h = ground arith

  -- A page of a group's history leaves out only what does not fit: every stored message that was
  -- posted to the group before the cutoff is on the page, by its identifier and time, or the page has
  -- as many messages as were asked for, none of them older than that message.
  pub group_history_complete :
      (group_id : Uuid) {l : List GroupMessage} {w' : World} (m : GroupMessage)
      → get_group_history req actor_id group_id before limit w ≡ (ok l, w')
      → Elem m w.db.group_messages
      → posted_before group_id (cutoff req before) m ≡ true
      → (any (is_group_message m) l ≡ true)
        ⊎ ((length l ≡ limit) × All (λ r. m.created_at ≤ r.created_at) l)
  unfolding group_messages_timeline
  group_history_complete group_id m h stored posted =
      let (e, _) = group_page req actor_id w before limit group_id h in
      let l = keep (posted_before group_id (cutoff req before)) w.db.group_messages in
      rw e (
        on_page (λ r. r.created_at) m.created_at (is_group_message m) (group_exact m) limit
          (x.order_group_messages l) (x.order_group_messages_newest l)
          (any_of_count (is_group_message m) l (x.order_group_messages l)
            (x.order_group_messages_count (is_group_message m) l)
            (any-keep_both (is_group_message m) (posted_before group_id (cutoff req before))
              w.db.group_messages stored posted (ground arith))))
