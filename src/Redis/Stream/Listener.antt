-- ===== src/Redis/Stream/Listener.antt =====
-- Which events the loop of `listen_to_stream` in src/redis/stream.py hands to its handler.
use messenger_backend.Base.{
  ℕ, ◌≤◌, ◌≡◌, refl, ◌∙◌, ap, Option, none, some, List, ◌++◌, length, arith,
}
use messenger_backend.Redis.Events.{EventDict}
use messenger_backend.Redis.Stream.{
  drop, System, asked_after, process, asked, answered, Steps, here, next, begins,
}
use messenger_backend.Redis.Stream.Segments.{KeepsUp, IsFollowing}
use messenger_backend.Redis.Stream.Following.{Steps-IsFollowing, unread-kept, IsSegment-at}

begins-IsFollowing :
    (h : List EventDict) (n : ℕ) → n ≤ length h → IsFollowing (length h) (begins h n)
begins-IsFollowing h n within = record {
  starts = ground arith;
  trims = within;
  reads = refl;
  asks = tt;
}

-- A listener that starts, and that no trimming overtakes, hands every event to its handler once and
-- in the order of their publication, through failed reads and time-outs, from the first that it sees
-- on: what it has handled, followed by what is after `last_id`, is the history from that event on.
-- But while it has seen none it asks after the newest event of the moment, so that event comes after
-- all that were published before, those after the last failed read or time-out included.
pub listener_follows :
    (h : List EventDict) (n : ℕ) {t : System} (ss : Steps (begins h n) t)
    → n ≤ length h
    → KeepsUp ss
    → IsFollowing (length h) t
listener_follows h n ss within kept =
    Steps-IsFollowing (length h) ss kept (begins-IsFollowing h n within)

-- A listener that has handled an event, that no trimming overtook and that does not wait, can always
-- catch up, by one read and its answer: then it has handled, once and in order, all events that were
-- ever published from some event on, which is not before its start.
pub listener_catches_up :
    (h : List EventDict) (n : ℕ) {s : System} {c : ℕ} (ss : Steps (begins h n) s)
    → n ≤ length h
    → KeepsUp ss
    → s.last_id ≡ some c
    → s.pending ≡ none
    → (t : System) × Steps s t
      × (t.history ≡ s.history)
      × ((first : ℕ) × (length h ≤ first) × (t.handled ≡ drop first s.history))
unfolding process
listener_catches_up h n {s} {c} ss within kept at idle =
    let i = listener_follows h n ss within kept in
    let p = asked_after s.last_id s.history in
    let waiting : System = record s { pending = some p } in
    let g = IsSegment-at (length h) s i s.last_id c p at (asks_last s.last_id at) i.reads in
    (
      process p waiting,
      next (next here (asked idle)) (answered p refl),
      refl,
      (g.first, g.not_before, ap (λ l. s.handled ++ l) (unread-kept p s g.kept) ∙ g.exact),
    )
  where
    asks_last : (o : Option ℕ) → o ≡ some c → asked_after o s.history ≡ c
    asks_last none e = cc
    asks_last (some k) e = cc
