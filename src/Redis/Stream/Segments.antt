-- ===== src/Redis/Stream/Segments.antt =====
-- What the handler of src/redis/stream.py has had of the events, as a segment of the history.
use messenger_backend.Base.{
  ℕ, zero, suc, ◌+◌, ◌≤◌, ◌≡◌, refl, Option, none, some, List, [], ◌∷◌, ◌++◌, length, arith,
}
use messenger_backend.Redis.Stream.{drop, System, Step, cut, Steps, here, next}

module _ {A : Type 0} where
  pub length-append : (l m : List A) → length (l ++ m) ≡ length l + length m
  length-append [] m = ground arith
  length-append (x ∷ l) m = ground (arith, length-append l m)

  pub drop-append : (n : ℕ) (l m : List A) → n ≤ length l → drop n (l ++ m) ≡ drop n l ++ m
  drop-append zero l m h = refl
  drop-append (suc n) [] m h = ground arith
  drop-append (suc n) (x ∷ l) m h = drop-append n l m (ground arith)

  pub drop-all : (l : List A) → drop (length l) l ≡ []
  drop-all [] = refl
  drop-all (x ∷ l) = drop-all l

  pub drop-none : (n : ℕ) (l : List A) → drop n l ≡ [] → length l ≤ n
  drop-none zero [] h = ground arith
  drop-none zero (x ∷ l) h = cc
  drop-none (suc n) [] h = ground arith
  drop-none (suc n) (x ∷ l) h = ground (arith, drop-none n l)

-- The events after the identifier that the listener has, or asks for, are not trimmed.
abbrev pub IsWithin : ℕ → Option ℕ → Type 0
IsWithin n none = Unit
IsWithin n (some p) = n ≤ p

abbrev pub HasKept : {s t : System} → Step s t → Type 0
HasKept {s} (cut n _ _) = IsWithin n s.last_id × IsWithin n s.pending
HasKept _ = Unit

-- No trimming on the way went past the listener.
abbrev pub KeepsUp : {s t : System} → Steps s t → Type 0
KeepsUp here = Unit
KeepsUp (next ss st) = KeepsUp ss × HasKept st

-- What was handled is the history from some event on, in order, up to `last_id`.
pub record IsSegment (from : ℕ) (s : System) (c : ℕ) : Type 0 where
  pub first : ℕ
  pub not_before : from ≤ first
  pub ordered : first ≤ c
  pub not_after : c ≤ length s.history
  pub kept : s.trimmed ≤ c
  pub exact : s.handled ++ drop c s.history ≡ drop first s.history

abbrev pub Reads : ℕ → System → Option ℕ → Type 0
Reads from s none = s.handled ≡ []
Reads from s (some c) = IsSegment from s c

-- A pending command asks after `last_id`, or, with "$", after an event of its moment.
abbrev pub Asks : ℕ → System → Option ℕ → Option ℕ → Type 0
Asks from s c none = Unit
Asks from s none (some p) = (from ≤ p) × (p ≤ length s.history) × (s.trimmed ≤ p)
Asks from s (some c) (some p) = p ≡ c

pub record IsFollowing (from : ℕ) (s : System) : Type 0 where
  pub starts : from ≤ length s.history
  pub trims : s.trimmed ≤ length s.history
  pub reads : Reads from s s.last_id
  pub asks : Asks from s s.last_id s.pending
