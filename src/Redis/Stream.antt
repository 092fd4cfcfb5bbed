-- ===== src/Redis/Stream.antt =====
-- The system stream of src/redis/stream.py: `publish_stream_event`, and the loop of
-- `listen_to_stream`, one step for each command that it sends or sees answered.
pub mod Segments
pub mod Following
pub mod Listener
use messenger_backend.Base.{
  ℕ, zero, suc, ◌+◌, ◌≤◌, ◌≡◌, Option, none, some, List, [], ◌∷◌, ◌++◌, leb, if◌then◌else◌, length,
}
use messenger_backend.Redis.Events.{EventDict}

abbrev pub drop : {A : Type 0} → ℕ → List A → List A
drop zero l = l
drop (suc n) [] = []
drop (suc n) (x ∷ l) = drop n l

abbrev pub max : ℕ → ℕ → ℕ
max a b = if leb a b then b else a

abbrev pub max_stream_length : ℕ
max_stream_length = 10000

-- All events ever published, the n-th of which has the identifier n, and how many of the oldest are
-- trimmed; and the listener: its `last_id`, where `none` is "$", the identifier after which a pending
-- XREAD asks, and the events that were handed to the handler.
pub record System : Type 0 where
  pub history : List EventDict
  pub trimmed : ℕ
  pub last_id : Option ℕ
  pub pending : Option ℕ
  pub handled : List EventDict

-- Redis takes "$" for the last identifier of the moment.
abbrev pub asked_after : Option ℕ → List EventDict → ℕ
asked_after none history = length history
asked_after (some c) history = c

-- What is left of the events after an identifier.
abbrev pub unread : ℕ → System → List EventDict
unread p s = drop (max p s.trimmed) s.history

abbrev pub advanced : List EventDict → System → Option ℕ
advanced [] s = s.last_id
advanced (_ ∷ _) s = some (length s.history)

-- The loop over the messages of an answer: every one is handed over, whether the handler raises or
-- not, and `last_id` is that of the last.
unfoldable pub process : ℕ → System → System
process p s = record s {
  last_id = advanced (unread p s) s;
  pending = none;
  handled = s.handled ++ unread p s;
}

pub data Step (s : System) : System → Type 0 where
  -- `xadd` by any worker.
  published : (d : EventDict) → Step s (record s { history = s.history ++ d ∷ [] })
  -- Redis trims, but never to less than the given length.
  cut :
      (n : ℕ)
      → s.trimmed ≤ n
      → n + max_stream_length ≤ length s.history
      → Step s (record s { trimmed = n })
  -- `xread` is sent.
  asked : s.pending ≡ none → Step s (record s { pending = some (asked_after s.last_id s.history) })
  -- It is answered: with what has come since, or with nothing after two seconds.
  answered : (p : ℕ) → s.pending ≡ some p → Step s (process p s)
  -- It fails, and the loop begins again.
  dropped : Step s (record s { pending = none })

pub data Steps (s : System) : System → Type 0 where
  here : Steps s s
  next : {t u : System} → Steps s t → Step t u → Steps s u

-- A listener that starts, or one that has handled no event and does not wait.
abbrev pub begins : List EventDict → ℕ → System
begins history trimmed = record {
  history = history;
  trimmed = trimmed;
  last_id = none;
  pending = none;
  handled = [];
}
