-- ===== src/Redis/Stream/Following.antt =====
-- How each step of the loop in src/redis/stream.py extends the segment that its handler has had.
use messenger_backend.Base.{
  ℕ, ◌+◌, ◌≤◌, ◌≡◌, refl, ◌∙◌, sym, ap, Option, none, some, List, [], ◌∷◌, ◌++◌, length, arith, inl,
  inr, Option-cases,
}
use messenger_backend.Base.{append_assoc, append-nil}
use messenger_backend.Redis.Events.{EventDict}
use messenger_backend.Redis.Stream.{
  drop, max, max_stream_length, System, asked_after, unread, advanced, process, Step, published,
  cut, asked, answered, dropped, Steps, here, next,
}
use messenger_backend.Redis.Stream.Segments.{
  length-append, drop-append, drop-all, IsWithin, HasKept, KeepsUp, IsSegment, Reads, Asks,
  IsFollowing,
}

pub unread-kept : (p : ℕ) (s : System) → s.trimmed ≤ p → unread p s ≡ drop p s.history
unread-kept p s h = ap (λ n. drop n s.history) (at_most p s.trimmed h)
  where
    at_most : (a b : ℕ) → b ≤ a → max a b ≡ a
    at_most a b h = ground arith

-- What a segment becomes when the rest of the history is handed over.
extended :
    {A : Type 0} (handled rest whole history : List A)
    → handled ++ rest ≡ whole
    → (handled ++ rest) ++ drop (length history) history ≡ whole
extended handled rest whole history e = rw (drop-all history) (append-nil (handled ++ rest) ∙ e)

module _ (from : ℕ) (s : System) (i : IsFollowing from s) where
  published-IsFollowing :
      (d : EventDict) → IsFollowing from (record s { history = s.history ++ d ∷ [] })
  published-IsFollowing d = record {
    starts = ground (arith, i.starts, length-append s.history (d ∷ []));
    trims = ground (arith, i.trims, length-append s.history (d ∷ []));
    reads = still_reads s.last_id i.reads;
    asks = still_asks s.last_id s.pending i.asks;
  }
    where
      still_reads :
          (o : Option ℕ)
          → Reads from s o
          → Reads from (record s { history = s.history ++ d ∷ [] }) o
      still_reads none h = h
      still_reads (some c) h = record {
        first = h.first;
        not_before = h.not_before;
        ordered = h.ordered;
        not_after = ground (arith, h.not_after, length-append s.history (d ∷ []));
        kept = h.kept;
        exact =
            rw
              (
                drop-append c s.history (d ∷ []) h.not_after,
                drop-append h.first s.history (d ∷ []) (ground (arith, h.ordered, h.not_after)),
              )
              (sym (append_assoc s.handled (drop c s.history) (d ∷ []))
                ∙ ap (λ l. l ++ d ∷ []) h.exact);
      }

      still_asks :
          (o q : Option ℕ)
          → Asks from s o q
          → Asks from (record s { history = s.history ++ d ∷ [] }) o q
      still_asks o none h = tt
      still_asks none (some p) h = (h.0, ground (arith, h.1, length-append s.history (d ∷ [])), h.2)
      still_asks (some c) (some p) h = h

  cut-IsFollowing :
      (n : ℕ)
      → n + max_stream_length ≤ length s.history
      → IsWithin n s.last_id
      → IsWithin n s.pending
      → IsFollowing from (record s { trimmed = n })
  cut-IsFollowing n long seen asked_for = record {
    starts = i.starts;
    trims = ground arith;
    reads = still_reads s.last_id seen i.reads;
    asks = still_asks s.last_id s.pending asked_for i.asks;
  }
    where
      still_reads :
          (o : Option ℕ) → IsWithin n o → Reads from s o → Reads from (record s { trimmed = n }) o
      still_reads none k h = h
      still_reads (some c) k h = record {
        first = h.first;
        not_before = h.not_before;
        ordered = h.ordered;
        not_after = h.not_after;
        kept = k;
        exact = h.exact;
      }

      still_asks :
          (o q : Option ℕ)
          → IsWithin n q
          → Asks from s o q
          → Asks from (record s { trimmed = n }) o q
      still_asks o none k h = tt
      still_asks none (some p) k h = (h.0, h.1, k)
      still_asks (some c) (some p) k h = h

  still_reading : (q o : Option ℕ) → Reads from s o → Reads from (record s { pending = q }) o
  still_reading q none h = h
  still_reading q (some c) h = record {
    first = h.first;
    not_before = h.not_before;
    ordered = h.ordered;
    not_after = h.not_after;
    kept = h.kept;
    exact = h.exact;
  }

  dropped-IsFollowing : IsFollowing from (record s { pending = none })
  dropped-IsFollowing = record {
    starts = i.starts;
    trims = i.trims;
    reads = still_reading none s.last_id i.reads;
    asks = tt;
  }

  asked-IsFollowing :
      IsFollowing from (record s { pending = some (asked_after s.last_id s.history) })
  asked-IsFollowing = record {
    starts = i.starts;
    trims = i.trims;
    reads = still_reading _ s.last_id i.reads;
    asks = asking s.last_id;
  }
    where
      asking : (o : Option ℕ) → Asks from s o (some (asked_after o s.history))
      asking none = (i.starts, ground arith, i.trims)
      asking (some c) = refl

module _ (from : ℕ) (s : System) (p : ℕ) where
  -- An answer to a command that asked after an event, with the first message or with none.
  answered_first :
      (l : List EventDict)
      → drop p s.history ≡ l
      → from ≤ p
      → p ≤ length s.history
      → s.trimmed ≤ length s.history
      → s.handled ≡ []
      → s.last_id ≡ none
      → Reads from
          (record s { last_id = advanced l s; pending = none; handled = s.handled ++ l })
          (advanced l s)
  answered_first [] e after within trims nothing start = rw start (rw nothing refl)
  answered_first (d ∷ l) e after within trims nothing start = record {
    first = p;
    not_before = after;
    ordered = within;
    not_after = ground arith;
    kept = trims;
    exact = rw (nothing, drop-all s.history) (append-nil (d ∷ l) ∙ sym e);
  }

  answered_later :
      (l : List EventDict)
      → drop p s.history ≡ l
      → s.trimmed ≤ length s.history
      → s.last_id ≡ some p
      → IsSegment from s p
      → Reads from
          (record s { last_id = advanced l s; pending = none; handled = s.handled ++ l })
          (advanced l s)
  answered_later [] e trims at h = rw at (record {
    first = h.first;
    not_before = h.not_before;
    ordered = h.ordered;
    not_after = h.not_after;
    kept = h.kept;
    exact = rw (append-nil s.handled) h.exact;
  })
  answered_later (d ∷ l) e trims at h = record {
    first = h.first;
    not_before = h.not_before;
    ordered = ground (arith, h.ordered, h.not_after);
    not_after = ground arith;
    kept = trims;
    exact = rw (← e, drop-all s.history) (append-nil (s.handled ++ drop p s.history) ∙ h.exact);
  }

module _ (from : ℕ) (s : System) (i : IsFollowing from s) where
  moved : (k c : ℕ) → c ≡ k → IsSegment from s k → IsSegment from s c
  moved k c e h = rw e h

  pub IsSegment-at :
      (o : Option ℕ) (c p : ℕ) → o ≡ some c → p ≡ c → Reads from s o → IsSegment from s p
  IsSegment-at none c p e same h = cc
  IsSegment-at (some k) c p e same h = moved k p (cc) h

  answered-IsFollowing : (p : ℕ) → s.pending ≡ some p → IsFollowing from (process p s)
  unfolding process
  answered-IsFollowing p e = record {
    starts = i.starts;
    trims = i.trims;
    reads = elim (Option-cases s.last_id) [
      | inl start ↦
          let (after, within, kept) = rw (start, e) at i.asks in
          answered_first from s p (unread p s) (sym (unread-kept p s kept)) after within i.trims
            (rw start at i.reads) start
      | inr (c, at) ↦
          let same : p ≡ c = rw (at, e) at i.asks in
          let h = IsSegment-at s.last_id c p at same i.reads in
          answered_later from s p (unread p s) (sym (unread-kept p s h.kept)) i.trims (rw same at) h
    ];
    asks = tt;
  }

Step-IsFollowing :
    (from : ℕ) {s t : System} (st : Step s t) → HasKept st → IsFollowing from s → IsFollowing from t
Step-IsFollowing from {s} (published d) k i = published-IsFollowing from s i d
Step-IsFollowing from {s} (cut n _ long) k i = cut-IsFollowing from s i n long k.0 k.1
Step-IsFollowing from {s} (asked _) k i = asked-IsFollowing from s i
Step-IsFollowing from {s} (answered p e) k i = answered-IsFollowing from s i p e
Step-IsFollowing from {s} dropped k i = dropped-IsFollowing from s i

pub Steps-IsFollowing :
    (from : ℕ) {s t : System} (ss : Steps s t)
    → KeepsUp ss
    → IsFollowing from s
    → IsFollowing from t
Steps-IsFollowing from here k i = i
Steps-IsFollowing from (next ss st) k i =
    Step-IsFollowing from st k.1 (Steps-IsFollowing from ss k.0 i)
