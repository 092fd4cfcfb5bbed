-- ===== src/Base/Rows.antt =====
-- A table is a list of rows. `find`, `any`, `count`, `keep` and `update` are a `SELECT` of one row,
-- a test for a row, a command's row count, a `DELETE` and an `UPDATE`.
use Prim.Native.Nat.{ℕ, suc}
use mathlib.Core.Path.{◌≡◌, refl, ap, ◌∙◌}
use mathlib.Core.Logic.{◌⊎◌, inl, inr}
use mathlib.Core.Bool.{Bool, true, false, not, ◌||◌}
use mathlib.Core.Option.{Option, none, some}
use mathlib.Core.List.{List, [], ◌∷◌, ◌++◌}
use native.Mathlib.Omega.{arith}
use messenger_backend.Base.Tests.{if◌then◌else◌, Bool-cases, ◌==◌}

module _ {A : Type 0} where
  abbrev pub Elem : A → List A → Type 0
  Elem a [] = ⊥
  Elem a (x ∷ xs) = (a ≡ x) ⊎ Elem a xs

  abbrev pub All : (A → Type 0) → List A → Type 0
  All P [] = Unit
  All P (x ∷ xs) = P x × All P xs

  abbrev pub find : (A → Bool) → List A → Option A
  find p [] = none
  find p (x ∷ xs) = if p x then some x else find p xs

  abbrev pub any : (A → Bool) → List A → Bool
  any p [] = false
  any p (x ∷ xs) = p x || any p xs

  abbrev pub count : (A → Bool) → List A → ℕ
  count p [] = 0
  count p (x ∷ xs) = if p x then suc (count p xs) else count p xs

  -- The rows that satisfy the test.
  abbrev pub keep : (A → Bool) → List A → List A
  keep p [] = []
  keep p (x ∷ xs) = let rest = keep p xs in if p x then x ∷ rest else rest

  abbrev pub update : (A → Bool) → (A → A) → List A → List A
  update p f [] = []
  update p f (x ∷ xs) = (if p x then f x else x) ∷ update p f xs

  -- No two rows are the same by the given test, such as that of a primary key.
  abbrev pub Distinct : (A → A → Bool) → List A → Type 0
  Distinct same [] = Unit
  Distinct same (x ∷ xs) = (any (same x) xs ≡ false) × Distinct same xs

module _ {A : Type 0} (p : A → Bool) where
  pub find-holds : (l : List A) {a : A} → find p l ≡ some a → p a ≡ true
  find-holds [] h = cc
  find-holds (x ∷ l) {a} h = elim (Bool-cases (p x)) [
    | inl e ↦ ground (arith, e)
    | inr e ↦ find-holds l (ground (arith, e))
  ]

  pub find-Elem : (l : List A) {a : A} → find p l ≡ some a → Elem a l
  find-Elem [] h = cc
  find-Elem (x ∷ l) {a} h = elim (Bool-cases (p x)) [
    | inl e ↦ inl (ground (arith, e))
    | inr e ↦ inr (find-Elem l (ground (arith, e)))
  ]

  pub any_of_find : (l : List A) {a : A} → find p l ≡ some a → any p l ≡ true
  any_of_find [] h = cc
  any_of_find (x ∷ l) {a} h = ground (arith, any_of_find l {a = a})

  pub find_of_any : (l : List A) → any p l ≡ true → (a : A) × (find p l ≡ some a)
  find_of_any [] h = cc
  find_of_any (x ∷ l) h = elim (Bool-cases (p x)) [
    | inl e ↦ (x, rw e)
    | inr e ↦ rw e (find_of_any l (ground (arith, e)))
  ]

  pub find-none : (l : List A) → any p l ≡ false → find p l ≡ none
  find-none [] h = refl
  find-none (x ∷ l) h = ground (arith, find-none l)

  pub any_of_Elem : (l : List A) {a : A} → Elem a l → p a ≡ true → any p l ≡ true
  any_of_Elem [] h e = elim h [ ]
  any_of_Elem (x ∷ l) (inl h) e = ground (arith, h)
  any_of_Elem (x ∷ l) (inr h) e = ground (arith, any_of_Elem l h e)

  pub not_of_Elem : (l : List A) {a : A} → Elem a l → any p l ≡ false → p a ≡ false
  not_of_Elem [] h e = elim h [ ]
  not_of_Elem (x ∷ l) (inl h) e = ground (arith, h)
  not_of_Elem (x ∷ l) (inr h) e = not_of_Elem l h (ground arith)

  pub count-zero : (l : List A) → count p l ≡ 0 → any p l ≡ false
  count-zero [] h = refl
  count-zero (x ∷ l) h = ground (arith, count-zero l)

  pub count_of_not_any : (l : List A) → any p l ≡ false → count p l ≡ 0
  count_of_not_any [] h = refl
  count_of_not_any (x ∷ l) h = ground (arith, count_of_not_any l)

  keep_hit :
      {a x : A} (l : List A)
      → p x ≡ true
      → (Elem a (keep p l) → Elem a l × (p a ≡ true))
      → (a ≡ x) ⊎ Elem a (keep p l)
      → ((a ≡ x) ⊎ Elem a l) × (p a ≡ true)
  keep_hit l e ih (inl h) = (inl h, rw h e)
  keep_hit l e ih (inr m) = (inr (ih m).0, (ih m).1)

  -- `UPDATE 0` and `DELETE 0` say that there is no such row.
  pub count_is_zero : (l : List A) → (count p l == 0) ≡ not (any p l)
  count_is_zero [] = refl
  count_is_zero (x ∷ l) = ground (arith, count_is_zero l)

  pub Elem-keep : (l : List A) {a : A} → Elem a (keep p l) → Elem a l × (p a ≡ true)
  Elem-keep [] h = elim h [ ]
  Elem-keep (x ∷ l) {a} h = elim (Bool-cases (p x)) [
    | inl e ↦ keep_hit l e (λ m. Elem-keep l m) (rw e at h)
    | inr e ↦ let (m, q) = Elem-keep l (rw e at h) in (inr m, q)
  ]

  pub All-keep : (P : A → Type 0) (l : List A) → All P l → All P (keep p l)
  All-keep P [] h = h
  All-keep P (x ∷ l) h = elim (Bool-cases (p x)) [
    | inl e ↦ rw e (h.0, All-keep P l h.1)
    | inr e ↦ rw e (All-keep P l h.1)
  ]

  -- A kept row satisfies the test besides.
  pub All-keep_imp :
      (P Q : A → Type 0)
      → ((a : A) → P a → p a ≡ true → Q a)
      → (l : List A) → All P l
      → All Q (keep p l)
  All-keep_imp P Q imp [] h = h
  All-keep_imp P Q imp (x ∷ l) h = elim (Bool-cases (p x)) [
    | inl e ↦ rw e (imp x h.0 e, All-keep_imp P Q imp l h.1)
    | inr e ↦ rw e (All-keep_imp P Q imp l h.1)
  ]

  pub kept_of_Elem : (l : List A) {a : A} → Elem a l → p a ≡ true → Elem a (keep p l)
  kept_of_Elem [] h e = h
  kept_of_Elem (x ∷ l) (inl h) e = let q : p x ≡ true = ground (arith, h, e) in rw q (inl h)
  kept_of_Elem (x ∷ l) (inr h) e = elim (Bool-cases (p x)) [
    | inl q ↦ rw q (inr (kept_of_Elem l h e))
    | inr q ↦ rw q (kept_of_Elem l h e)
  ]

  pub All-keep_holds : (l : List A) → All (λ a. p a ≡ true) (keep p l)
  All-keep_holds [] = tt
  All-keep_holds (x ∷ l) = elim (Bool-cases (p x)) [
    | inl e ↦ rw e (e, All-keep_holds l)
    | inr e ↦ rw e (All-keep_holds l)
  ]

  pub any-keep-false : (q : A → Bool) (l : List A) → any q l ≡ false → any q (keep p l) ≡ false
  any-keep-false q [] h = refl
  any-keep-false q (x ∷ l) h = ground (arith, any-keep-false q l)

  pub any-keep :
      (q : A → Bool)
      → ((a : A) → q a ≡ true → p a ≡ true)
      → (l : List A) → any q l ≡ true
      → any q (keep p l) ≡ true
  any-keep q sub [] h = h
  any-keep q sub (x ∷ l) h = ground (arith, sub x, any-keep q sub l)

  pub Distinct-keep :
      (same : A → A → Bool) (l : List A) → Distinct same l → Distinct same (keep p l)
  Distinct-keep same [] h = h
  Distinct-keep same (x ∷ l) h = elim (Bool-cases (p x)) [
    | inl e ↦ rw e (any-keep-false (same x) l h.0, Distinct-keep same l h.1)
    | inr e ↦ rw e (Distinct-keep same l h.1)
  ]

  module _ (f : A → A) where
    pub any-update :
        (q : A → Bool) → ((a : A) → q (f a) ≡ q a) → (l : List A) → any q (update p f l) ≡ any q l
    any-update q same [] = refl
    any-update q same (x ∷ l) = ground (arith, same x, any-update q same l)

    pub All-update :
        (P : A → Type 0) → ((a : A) → P a → P (f a)) → (l : List A) → All P l → All P (update p f l)
    All-update P step [] h = h
    All-update P step (x ∷ l) h = elim (Bool-cases (p x)) [
      | inl e ↦ rw e (step x h.0, All-update P step l h.1)
      | inr e ↦ rw e (h.0, All-update P step l h.1)
    ]

    pub find-update :
        ((a : A) → p (f a) ≡ p a)
        → (l : List A) {a : A} → find p l ≡ some a
        → find p (update p f l) ≡ some (f a)
    find-update same [] h = cc
    find-update same (x ∷ l) {a} h = elim (Bool-cases (p x)) [
      | inl e ↦ ground (arith, e, same x)
      | inr e ↦ rw (e, e) (find-update same l (ground (arith, e)))
    ]

    -- What an update makes true holds of the rows that it was for.
    pub update_sets :
        (Q : A → Type 0)
        → ((a : A) → Q (f a))
        → (l : List A) → All (λ a. p a ≡ true → Q a) (update p f l)
    update_sets Q sets [] = tt
    update_sets Q sets (x ∷ l) = elim (Bool-cases (p x)) [
      | inl e ↦ rw e ((λ _. sets x), update_sets Q sets l)
      | inr e ↦ rw e ((λ h. cc), update_sets Q sets l)
    ]

    pub Distinct-update :
        (same : A → A → Bool)
        → ((a b : A) → same (f a) b ≡ same a b)
        → ((a b : A) → same a (f b) ≡ same a b)
        → (l : List A) → Distinct same l
        → Distinct same (update p f l)
    Distinct-update same left right [] h = h
    Distinct-update same left right (x ∷ l) h = elim (Bool-cases (p x)) [
      | inl e ↦ rw e (
        any-update (same (f x)) (right (f x)) l ∙ any_ext l ∙ h.0,
        Distinct-update same left right l h.1,
      )
      | inr e ↦ rw e (any-update (same x) (right x) l ∙ h.0, Distinct-update same left right l h.1)
    ]
      where
        any_ext : (l : List A) → any (same (f x)) l ≡ any (same x) l
        any_ext [] = refl
        any_ext (y ∷ l) = ground (arith, left x y, any_ext l)

module _ {A : Type 0} (P : A → Type 0) where
  pub All_at : (l : List A) {a : A} → All P l → Elem a l → P a
  All_at [] h m = elim m [ ]
  All_at (x ∷ l) h (inl e) = rw e h.0
  All_at (x ∷ l) h (inr m) = All_at l h.1 m

  pub All-imp : (Q : A → Type 0) → ((a : A) → P a → Q a) → (l : List A) → All P l → All Q l
  All-imp Q imp [] h = h
  All-imp Q imp (x ∷ l) h = (imp x h.0, All-imp Q imp l h.1)

module _ {A : Type 0} where
  pub append_assoc : (k l m : List A) → (k ++ l) ++ m ≡ k ++ (l ++ m)
  append_assoc [] l m = refl
  append_assoc (x ∷ k) l m = ap (λ r. x ∷ r) (append_assoc k l m)

  pub append-nil : (l : List A) → l ++ [] ≡ l
  append-nil [] = refl
  append-nil (x ∷ l) = ap (λ r. x ∷ r) (append-nil l)

module _ {A : Type 0} where
  pub every_of_Elem : (P : A → Type 0) (l : List A) → ((a : A) → Elem a l → P a) → All P l
  every_of_Elem P [] h = tt
  every_of_Elem P (x ∷ l) h = (h x (inl refl), every_of_Elem P l (λ a m. h a (inr m)))
