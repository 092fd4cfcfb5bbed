-- ===== src/Services/Auth/Race/Exclusion.antt =====
-- The calls of `refresh` of src/services/auth.py that present one token exclude each other, over
-- every interleaving of their statements.
use messenger_backend.Base.{
  ℕ, String, ◌≡◌, ◌∙◌, Bool, true, false, none, some, [], arith, ◌==◌, Bool-cases, inl, inr, Option,
}
use messenger_backend.Database.Models.{Uuid, Timestamp, Token}
use messenger_backend.Database.Fetch
use messenger_backend.Database.Sql.{of_token}
use messenger_backend.Database.Tables.{Db}
use messenger_backend.Effects.{ok, err}
use messenger_backend.External.{External}
use messenger_backend.Services.Auth.{refresh_row}
use messenger_backend.Services.Auth.Race.{
  Phase, outside, holding, ended, has_rotated, Calls, moved, begin_at, Writes, visible, Step, locks,
  misses, executes, commits, rolls_back, elsewhere, Steps, here, next,
}
use messenger_backend.Services.Auth.Race.Spent.{IsSpent, statement-IsSpent, found_spent}
use messenger_backend.Services.Auth.Race.Rotation.{
  IsUnderWay, visible-IsSpent, marked-IsSpent, after_read-IsUnderWay, write-IsUnderWay,
  rotated-IsMarked,
}
use messenger_backend.Services.Request.{TokenPair}

-- A call past its read holds the row, which is the one it has read.
abbrev pub IsHeld : String → Option ℕ → Db → ℕ → Phase → Type 0
IsHeld h lock db j (holding t todo ws) =
    (lock ≡ some j) × (Fetch.refresh_token h db ≡ some t) × IsUnderWay h t todo ws
IsHeld h lock db j _ = Unit

-- At most one call has rotated, after which the token is spent.
pub record IsExclusive (h : String) (c : Calls) : Type 0 where
  pub held : (j : ℕ) → IsHeld h c.lock c.db j (c.phase j)
  pub spent : (i : ℕ) → has_rotated (c.phase i) ≡ true → IsSpent h c.db
  pub once : (i j : ℕ) → has_rotated (c.phase i) ≡ true → has_rotated (c.phase j) ≡ true → i ≡ j

pub begin-IsExclusive : (h : String) (db : Db) → IsExclusive h (begin_at db)
begin-IsExclusive h db = record { held = λ j. tt; spent = λ i e. cc; once = λ i j e f. cc }

module _ (h : String) where
  still-IsHeld :
      (lock lock' : Option ℕ) (db db' : Db) (j : ℕ) (p : Phase)
      → (lock ≡ some j → (lock' ≡ some j) × (Fetch.refresh_token h db' ≡ Fetch.refresh_token h db))
      → IsHeld h lock db j p
      → IsHeld h lock' db' j p
  still-IsHeld lock lock' db db' j outside keeps k = tt
  still-IsHeld lock lock' db db' j (ended r) keeps k = tt
  still-IsHeld lock lock' db db' j (holding t todo ws) keeps (l, f, u) =
      let (l', f') = keeps l in (l', f' ∙ f, u)

  -- Of two calls only one holds the row.
  not_both : {i j : ℕ} {lock : Option ℕ} → (j == i) ≡ false → lock ≡ some i → lock ≡ some j → ⊥
  not_both e l m = ground arith

  -- A call that frees the row leaves no other that holds it.
  freed-IsHeld :
      (i : ℕ) (p : Phase) (c : Calls) (db' : Db)
      → IsExclusive h c
      → c.lock ≡ some i
      → ((j : ℕ) → IsHeld h none db' j p)
      → (j : ℕ) → IsHeld h none db' j (moved i p c.phase j)
  freed-IsHeld i p c db' k l at_i j = elim (Bool-cases (j == i)) [
    | inl same ↦ rw same (at_i j)
    | inr other ↦ rw other (
        still-IsHeld c.lock none c.db db' j (c.phase j) (λ m. absurd (not_both other l m))
          (k.held j))
  ]

module _ ⦃x : External⦄ (h : String) (now : ℕ → Timestamp) (pair : ℕ → TokenPair)
    (fresh : (i : ℕ) (u : Uuid) → of_token h (refresh_row u (pair i)) ≡ false) where
  holder :
      {c : Calls} {i : ℕ} {p : Phase} → IsExclusive h c → c.phase i ≡ p → IsHeld h c.lock c.db i p
  holder {i = i} k e = rw e at (k.held i)

  not_twice :
      {c : Calls}
      → IsExclusive h c
      → (i j : ℕ) (t : Token) (b : Bool) (ws : Writes) → c.phase i ≡ holding t (ok ([], b)) ws
      → has_rotated (c.phase j) ≡ true
      → b ≡ false
      → ⊥
  not_twice {c} k i j t b ws e before now_too =
      let (l, found, under_way) = holder k e in
      cc (
        found_spent h c.db (k.spent j before) found,
        (rotated-IsMarked h t b ws now_too under_way).0,
      )

  commit-IsSpent :
      {c : Calls}
      → IsExclusive h c
      → (i : ℕ) (t : Token) (b : Bool) (ws : Writes) → c.phase i ≡ holding t (ok ([], b)) ws
      → (j : ℕ) → has_rotated (moved i (ended (some (ok (t.user_id, b)))) c.phase j) ≡ true
      → IsSpent h (visible ws c.db)
  commit-IsSpent {c} k i t b ws e j m =
      let (l, found, under_way) = holder k e in
      elim (Bool-cases (j == i)) [
        | inl same ↦
            let done : b ≡ false = ground (arith, m, same) in
            marked-IsSpent h ws c.db (rotated-IsMarked h t b ws done under_way).1
        | inr other ↦ visible-IsSpent h ws c.db under_way.0 (k.spent j (rw other at m))
      ]

  Step-IsExclusive : {c d : Calls} → Step h now pair c d → IsExclusive h c → IsExclusive h d
  Step-IsExclusive {c} (locks i t e free found) k = record {
    held = λ j. elim (Bool-cases (j == i)) [
      | inl same ↦
          rw same
            (ground arith, found, after_read-IsUnderWay h (now i) (pair i) t (fresh i t.user_id))
      | inr other ↦ rw other (
          still-IsHeld h c.lock (some i) c.db c.db j (c.phase j) (λ l. absurd (cc (l, free)))
            (k.held j))
    ];
    spent = λ j m. k.spent j (ground arith);
    once = λ j l m n. k.once j l (ground arith) (ground arith);
  }
  Step-IsExclusive {c} (misses i e gone) k = record {
    held =
        λ j. elim (Bool-cases (j == i)) [ inl same ↦ rw same tt | inr other ↦ rw other (k.held j) ];
    spent = λ j m. k.spent j (ground arith);
    once = λ j l m n. k.once j l (ground arith) (ground arith);
  }
  Step-IsExclusive {c} (executes i t s ss b ws e runs hit) k =
      let (l, found, under_way) = holder k e in
      record {
        held = λ j. elim (Bool-cases (j == i)) [
          | inl same ↦
              rw same
                (ground arith, found, write-IsUnderWay h t s ss b (visible ws c.db) ws under_way)
          | inr other ↦ rw other (k.held j)
        ];
        spent = λ j m. k.spent j (ground arith);
        once = λ j l m n. k.once j l (ground arith) (ground arith);
      }
  Step-IsExclusive {c} (commits i t b ws e) k = record {
    held =
        freed-IsHeld h i (ended (some (ok (t.user_id, b)))) c (visible ws c.db) k (holder k e).0
          (λ j. tt);
    spent = commit-IsSpent k i t b ws e;
    once = λ j l m n. elim (Bool-cases (j == i)) [
      | inl a ↦ elim (Bool-cases (l == i)) [
        | inl b ↦ ground arith
        | inr b ↦ absurd (not_twice k i l t _ ws e (rw b at n) (ground (arith, rw a at m)))
      ]
      | inr a ↦ elim (Bool-cases (l == i)) [
        | inl b ↦ absurd (not_twice k i j t _ ws e (rw a at m) (ground (arith, rw b at n)))
        | inr b ↦ k.once j l (rw a at m) (rw b at n)
      ]
    ];
  }
  Step-IsExclusive {c} (rolls_back i t todo ws x e raised) k = record {
    held = freed-IsHeld h i (ended (some (err x))) c c.db k (holder k e).0 (λ j. tt);
    spent = λ j m. k.spent j (ground arith);
    once = λ j l m n. k.once j l (ground arith) (ground arith);
  }
  Step-IsExclusive {c} (elsewhere s {n} {db'} other e free) k = record {
    held = λ j.
        still-IsHeld h c.lock c.lock c.db db' j (c.phase j)
          (λ l. elim free [ inl unlocked ↦ absurd (cc (unlocked, l)) | inr same ↦ (l, same) ])
          (k.held j);
    spent = λ i m. statement-IsSpent h c.db db' n s other e (k.spent i m);
    once = k.once;
  }

  pub Steps-IsExclusive : {c d : Calls} → Steps h now pair c d → IsExclusive h c → IsExclusive h d
  Steps-IsExclusive (here c) k = k
  Steps-IsExclusive (next s ss) k = Steps-IsExclusive ss (Step-IsExclusive s k)

  -- Whatever calls of refresh present one token, and whatever else is committed in between, when the
  -- digest of no new token is that of the one presented: of all calls at most one exchanges the token
  -- for a new pair, and from then on every row of the token is revoked.
  pub rotates_once :
      (db : Db) {c : Calls}
      → Steps h now pair (begin_at db) c
      → (i : ℕ) → has_rotated (c.phase i) ≡ true
      → IsSpent h c.db × ((j : ℕ) → has_rotated (c.phase j) ≡ true → i ≡ j)
  rotates_once db ss i m =
      let k = Steps-IsExclusive ss (begin-IsExclusive h db) in (k.spent i m, λ j n. k.once i j m n)
