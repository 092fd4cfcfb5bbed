-- ===== src/Database/Connection/Outcomes.antt =====
-- How `connect`, `connection` and `transaction` of src/database/connection.py end.
use messenger_backend.Base.{
  ℕ, zero, suc, ◌+◌, ◌≤◌, ◌<◌, ◌≡◌, refl, ◌∙◌, sym, ap, ◌↔◌, ==_iff, ◌==◌, Bool-cases, ◌⊎◌, inl,
  inr, none, some, arith,
}
use messenger_backend.Database.Connection.{
  interface_error, query_canceled_error, serialization_error, postgres_error, internal_client_error,
  serialization_conflict, Exception, driver, database, other, Outcome, returns, raises, Pool, Conn,
  DatabaseManager, Created, opened, os_error, failed, Connected, connected, retry_error, raised,
  max_attempts, attempts, connect_to, connect, connection, transaction, translate, translated,
  entered, on_pool, conflicts,
}

-- The calls from the n-th on and before the k-th raise an OSError.
abbrev pub AllFail : (ℕ → Created) → ℕ → ℕ → Type 0
AllFail create_pool n k = (j : ℕ) → n ≤ j → j < k → create_pool j ≡ os_error

-- The k-th call is the first, from the n-th on, that does not raise an OSError.
abbrev pub IsFirst : (ℕ → Created) → ℕ → ℕ → Created → ℕ → Type 0
IsFirst create_pool n left c calls =
    (k : ℕ) × (n ≤ k)
    × (k < n + left)
    × (calls ≡ suc k)
    × (create_pool k ≡ c)
    × AllFail create_pool n k

abbrev pub EndsWith : (ℕ → Created) → ℕ → ℕ → Connected × ℕ → Type 0
EndsWith create_pool n left (connected p, calls) = IsFirst create_pool n left (opened p) calls
EndsWith create_pool n left (raised, calls) = IsFirst create_pool n left failed calls
EndsWith create_pool n left (retry_error, calls) =
    (calls ≡ n + left) × AllFail create_pool n (n + left)

-- The manager has the pool that was opened, or none.
abbrev pub Holds : Connected → DatabaseManager → Type 0
Holds (connected p) m = m.pool ≡ some p
Holds _ m = m.pool ≡ none

Created-cases : (c : Created) → ((p : Pool) × (c ≡ opened p)) ⊎ ((c ≡ os_error) ⊎ (c ≡ failed))
Created-cases (opened p) = inl (p, refl)
Created-cases os_error = inr (inl refl)
Created-cases failed = inr (inr refl)

module _ (create_pool : ℕ → Created) (m : DatabaseManager) where
  fails_on :
      (n k : ℕ) → create_pool n ≡ os_error → AllFail create_pool (suc n) k → AllFail create_pool n k
  fails_on n k e h j after before = elim (Bool-cases (n == j)) [
    | inl same ↦ rw (sym ((==_iff n j).0 same)) e
    | inr differs ↦ h j (ground arith) before
  ]

  later-IsFirst :
      (n left : ℕ) {c : Created} {calls : ℕ}
      → create_pool n ≡ os_error
      → IsFirst create_pool (suc n) left c calls
      → IsFirst create_pool n (suc left) c calls
  later-IsFirst n left e h =
      let (k, after, before, same, at, fail) = h in
      (k, ground arith, ground arith, same, at, fails_on n k e fail)

  later-EndsWith :
      (n left : ℕ) (c : Connected) (calls : ℕ)
      → create_pool n ≡ os_error
      → EndsWith create_pool (suc n) left (c, calls)
      → EndsWith create_pool n (suc left) (c, calls)
  later-EndsWith n left (connected p) calls e h = later-IsFirst n left e h
  later-EndsWith n left raised calls e h = later-IsFirst n left e h
  later-EndsWith n left retry_error calls e h = (
    ground (arith, h.0),
    λ j after before. fails_on n (suc n + left) e h.1 j after (ground arith),
  )

  now-IsFirst :
      (n left : ℕ) {c : Created} → create_pool n ≡ c → IsFirst create_pool n (suc left) c (suc n)
  now-IsFirst n left e = (n, ground arith, ground arith, refl, e, λ j after before. ground arith)

  attempts-EndsWith : (n left : ℕ) → EndsWith create_pool n left (attempts create_pool n left m).0
  attempts-EndsWith n zero = (ground arith, λ j after before. ground arith)
  attempts-EndsWith n (suc left) = elim (Created-cases (create_pool n)) [
    | inl e ↦ let (p, e) = e in rw e (now-IsFirst n left e)
    | inr e ↦ elim e [
      | inl e ↦ rw e (later-EndsWith n left _ _ e (attempts-EndsWith (suc n) left))
      | inr e ↦ rw e (now-IsFirst n left e)
    ]
  ]

  calls_bound : (n left : ℕ) → (attempts create_pool n left m).0.1 ≤ n + left
  calls_bound n zero = ground arith
  calls_bound n (suc left) = elim (Created-cases (create_pool n)) [
    | inl e ↦ let (p, e) = e in rw e (ground arith)
    | inr e ↦ elim e [
      | inl e ↦ rw e (omega (arith, calls_bound (suc n) left))
      | inr e ↦ rw e (ground arith)
    ]
  ]

  attempts-Holds :
      (n left : ℕ)
      → m.pool ≡ none
      → Holds (attempts create_pool n left m).0.0 (attempts create_pool n left m).1
  attempts-Holds n zero h = h
  attempts-Holds n (suc left) h = elim (Created-cases (create_pool n)) [
    | inl e ↦ let (p, e) = e in rw e refl
    | inr e ↦ elim e [ inl e ↦ rw e (attempts-Holds (suc n) left h) | inr e ↦ rw e h ]
  ]

  -- `connect` without a pool calls `asyncpg.create_pool` ten times at most. It ends at the first call
  -- that does not raise an OSError: with its pool, which the manager keeps, or with what it raised.
  -- Where all ten raise one it ends with a RetryError. Without a pool to return it leaves none.
  pub connect_outcome :
      m.pool ≡ none
      → EndsWith create_pool 0 max_attempts (connect create_pool m).0
        × ((connect create_pool m).0.1 ≤ max_attempts)
        × Holds (connect create_pool m).0.0 (connect create_pool m).1
  unfolding connect
  connect_outcome h =
      let e = ap (λ o. connect_to create_pool o m) h in
      rw e (
        attempts-EndsWith 0 max_attempts,
        calls_bound 0 max_attempts,
        attempts-Holds 0 max_attempts h,
      )

-- An asyncpg.InterfaceError or an asyncpg.PostgresError.
abbrev pub IsCaught : Exception → Type 0
IsCaught (driver internal_client_error) = ⊥
IsCaught (driver e) = Unit
IsCaught _ = ⊥

translate-IsCaught : (e : Exception) → ¬ IsCaught (translate e)
translate-IsCaught (driver interface_error) h = h
translate-IsCaught (driver query_canceled_error) h = h
translate-IsCaught (driver serialization_error) h = h
translate-IsCaught (driver postgres_error) h = h
translate-IsCaught (driver internal_client_error) h = h
translate-IsCaught (database _) h = h
translate-IsCaught (other _) h = h

module _ {A : Type 0} where
  raises-same :
      (f e : Exception) → ◌≡◌ {A = Outcome A} (raises (translate f)) (raises e) → translate f ≡ e
  raises-same f e h = cc

  translated-IsCaught : (r : Outcome A) {e : Exception} → translated r ≡ raises e → ¬ IsCaught e
  translated-IsCaught (returns a) h = cc
  translated-IsCaught (raises f) {e} h =
      λ d. translate-IsCaught f (rw (sym (raises-same f e h)) at d)

  passes :
      (e : Exception)
      → ¬ IsCaught e
      → ◌≡◌ {A = Outcome A} (translated (conflicts (raises e))) (raises e)
  passes (driver interface_error) n = absurd (n tt)
  passes (driver query_canceled_error) n = absurd (n tt)
  passes (driver serialization_error) n = absurd (n tt)
  passes (driver postgres_error) n = absurd (n tt)
  passes (driver internal_client_error) n = refl
  passes (database _) n = refl
  passes (other _) n = refl

  settled_returns :
      (r : Outcome A) (a : A) → (translated (conflicts r) ≡ returns a) ↔ (r ≡ returns a)
  settled_returns (returns b) a = ((λ h. h), λ h. h)
  settled_returns (raises (driver interface_error)) a = ((λ h. cc), λ h. cc)
  settled_returns (raises (driver query_canceled_error)) a = ((λ h. cc), λ h. cc)
  settled_returns (raises (driver serialization_error)) a = ((λ h. cc), λ h. cc)
  settled_returns (raises (driver postgres_error)) a = ((λ h. cc), λ h. cc)
  settled_returns (raises (driver internal_client_error)) a = ((λ h. cc), λ h. cc)
  settled_returns (raises (database _)) a = ((λ h. cc), λ h. cc)
  settled_returns (raises (other _)) a = ((λ h. cc), λ h. cc)

module _ {A : Type 0} (m : DatabaseManager) (acquire : Pool → Outcome Conn)
    (begin : Conn → (Conn → Outcome A) → Outcome A) (body : Conn → Outcome A) where
  -- A transaction on a connection of the pool. It returns what the driver's transaction around the
  -- block returns, and only then; a serialization failure of it becomes the module's
  -- SerializationError; no InterfaceError or PostgresError of asyncpg leaves it; and what is neither,
  -- such as an InternalClientError or an error of the block's own, leaves it as it is.
  pub transaction_outcome :
      {p : Pool} {c : Conn}
      → m.pool ≡ some p
      → acquire p ≡ returns c
      → ((a : A) → (transaction m acquire begin none body ≡ returns a) ↔ (begin c body ≡ returns a))
        × (begin c body ≡ raises (driver serialization_error)
            → transaction m acquire begin none body ≡ raises (database serialization_conflict))
        × ((e : Exception) → transaction m acquire begin none body ≡ raises e → ¬ IsCaught e)
        × ((e : Exception)
            → ¬ IsCaught e
            → begin c body ≡ raises e
            → transaction m acquire begin none body ≡ raises e)
  unfolding transaction connection
  transaction_outcome {p} {c} held given =
      let e =
        ap (λ o. on_pool o acquire (λ c. conflicts (begin c body))) held
        ∙ ap (λ o. translated (entered o (λ c. conflicts (begin c body)))) given in
      rw e (
        (λ a. settled_returns (begin c body) a),
        (λ f. rw f refl),
        (λ f h. translated-IsCaught (conflicts (begin c body)) h),
        λ f n h. rw h (passes f n),
      )
