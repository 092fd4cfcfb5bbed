-- ===== src/External.antt =====
-- What the program relies on and does not implement, as the argument of the code that uses it.
use messenger_backend.Base.{
  ℕ, String, ◌≡◌, Bool, false, Option, some, none, List, [], ◌∷◌, ◌≤◌, str_eq, if◌then◌else◌, Elem,
  count,
}
use messenger_backend.Database.Enums.{Constraint}
use messenger_backend.Database.Models.{User, Friendship, DirectMessage, GroupMessage}

-- How argon2's `verify` ends: it returns, raises VerifyMismatchError, raises InvalidHashError, or
-- raises another of its errors.
pub data Verdict : Type 0 where
  matches mismatch invalid_hash failed : Verdict

-- The entries of a token cache, most recently set first.
abbrev pub Entries : Type 0
Entries = List (String × User)

abbrev pub entry : String → Entries → Option User
entry k [] = none
entry k ((j, u) ∷ c) = if str_eq j k then some u else entry k c

-- From the newest to the oldest, as `ORDER BY created_at DESC` asks.
abbrev pub IsNewestFirst : {A : Type 0} → (A → ℕ) → List A → Type 0
IsNewestFirst at [] = Unit
IsNewestFirst at (x ∷ []) = Unit
IsNewestFirst at (x ∷ y ∷ l) = (at y ≤ at x) × IsNewestFirst at (y ∷ l)

pub record External : Type 0 where
  -- PostgreSQL: the constraint that an error names, if a row violates several.
  pub report : Constraint → List Constraint → Constraint
  pub report_Elem : (c : Constraint) (cs : List Constraint) → Elem (report c cs) (c ∷ cs)
  -- PostgreSQL: the row that `LIMIT 1` returns where no order is asked for.
  pub pick : Friendship → List Friendship → Friendship
  pub pick_Elem : (f : Friendship) (fs : List Friendship) → Elem (pick f fs) (f ∷ fs)
  -- PostgreSQL: `ORDER BY created_at DESC`, which leaves the order of equal instants open.
  pub order_dms : List DirectMessage → List DirectMessage
  pub order_dms_newest : (l : List DirectMessage) → IsNewestFirst (λ m. m.created_at) (order_dms l)
  pub order_dms_count :
      (p : DirectMessage → Bool) (l : List DirectMessage) → count p (order_dms l) ≡ count p l
  pub order_group_messages : List GroupMessage → List GroupMessage
  pub order_group_messages_newest :
      (l : List GroupMessage) → IsNewestFirst (λ m. m.created_at) (order_group_messages l)
  pub order_group_messages_count :
      (p : GroupMessage → Bool) (l : List GroupMessage)
      → count p (order_group_messages l) ≡ count p l
  -- hashlib: `sha256(token).hexdigest()`, which is never empty.
  pub hash_token : String → String
  pub hash_token_nonempty : (t : String) → str_eq (hash_token t) "" ≡ false
  -- argon2: `PasswordHasher.hash` with a salt, `verify` and `check_needs_rehash`, where `none` is an
  -- InvalidHashError.
  pub hash : ℕ → String → String
  pub verify : String → String → Verdict
  pub check_needs_rehash : String → Option Bool
  -- cachetools: what a TTLCache drops by itself when an entry is set.
  pub evict : Entries → Entries
  pub evict_entry :
      (k : String) (c : Entries) {u : User} → entry k (evict c) ≡ some u → entry k c ≡ some u
