-- ===== src/Services/Messaging/Pages.antt =====
-- The first rows of a list that runs from the newest to the oldest: what such a page leaves out is not
-- newer than anything on it.
use messenger_backend.Base.{
  ℕ, zero, suc, ◌+◌, ◌≤◌, ◌≡◌, refl, ◌⊎◌, inl, inr, true, false, Bool, List, [], ◌∷◌, ◌++◌, ◌||◌,
  arith, keep, All, any, count, length, Bool-cases, leb, count-zero, count_of_not_any, Elem,
}
use messenger_backend.Database.Fetch.{take}
use messenger_backend.External.{IsNewestFirst}

module _ {A : Type 0} (at : A → ℕ) where
  -- No row of the list is newer than the instant.
  tail : (x : A) (l : List A) → IsNewestFirst at (x ∷ l) → IsNewestFirst at l
  tail x [] h = tt
  tail x (y ∷ l) h = h.1

  module _ (t : ℕ) (p : A → Bool) (exact : (a : A) → p a ≡ true → at a ≡ t) where
    head_newer : (x : A) (l : List A) → IsNewestFirst at (x ∷ l) → any p l ≡ true → t ≤ at x
    head_newer x [] h there = cc
    head_newer x (y ∷ l) h there = elim (Bool-cases (p y)) [
      | inl e ↦ ground (arith, exact y e, h.0)
      | inr e ↦ ground (arith, head_newer y l h.1, h.0)
    ]

    -- A row of that instant is on the page, or the page is full of rows that are not older.
    pub on_page :
        (n : ℕ) (l : List A)
        → IsNewestFirst at l
        → any p l ≡ true
        → (any p (take n l) ≡ true) ⊎ ((length (take n l) ≡ n) × All (λ a. t ≤ at a) (take n l))
    on_page zero l h there = inr (refl, tt)
    on_page (suc n) [] h there = cc
    on_page (suc n) (x ∷ l) h there = elim (Bool-cases (p x)) [
      | inl e ↦ inl (ground arith)
      | inr e ↦ elim (on_page n l (tail x l h) (ground arith)) [
        | inl found ↦ inl (ground arith)
        | inr full ↦ inr (ground arith, (head_newer x l h (ground arith), full.1))
      ]
    ]

  -- Whether a row is not older than the instant.
  abbrev pub is_since : ℕ → A → Bool
  is_since t a = leb t (at a)

  none_since :
      (t : ℕ) (x : A) (l : List A)
      → IsNewestFirst at (x ∷ l)
      → is_since t x ≡ false
      → count (is_since t) l ≡ 0
  none_since t x [] h old = refl
  none_since t x (y ∷ l) h old =
      let older : is_since t y ≡ false = ground (arith, h.0) in
      rw older (none_since t y l h.1 older)

  -- With that many rows that are not older, the page is full of such.
  pub full_page :
      (t n : ℕ) (l : List A)
      → IsNewestFirst at l
      → n ≤ count (is_since t) l
      → (length (take n l) ≡ n) × All (λ a. t ≤ at a) (take n l)
  full_page t zero l h many = (refl, tt)
  full_page t (suc n) [] h many = absurd (ground arith)
  full_page t (suc n) (x ∷ l) h many = elim (Bool-cases (is_since t x)) [
    | inr old ↦ absurd (ground (arith, none_since t x l h old))
    | inl new ↦
        let (full, all) = full_page t n l (tail x l h) (ground arith) in
        (ground arith, (ground arith, all))
  ]

  pub count_since : (t : ℕ) (l : List A) → All (λ a. t ≤ at a) l → count (is_since t) l ≡ length l
  count_since t [] h = refl
  count_since t (x ∷ l) h = ground (arith, h.0, count_since t l h.1)

module _ {A : Type 0} (p : A → Bool) where
  pub any-append : (l m : List A) → any p (l ++ m) ≡ (any p l || any p m)
  any-append [] m = refl
  any-append (x ∷ l) m = ground (arith, any-append l m)

  pub count-append : (l m : List A) → count p (l ++ m) ≡ count p l + count p m
  count-append [] m = ground arith
  count-append (x ∷ l) m = ground (arith, count-append l m)

  -- A list with as many rows, as far as the test can tell.
  pub any_of_more : (l m : List A) → count p l ≤ count p m → any p l ≡ true → any p m ≡ true
  any_of_more l m e h = elim (Bool-cases (any p m)) [
    | inl there ↦ there
    | inr gone ↦ cc (count-zero p l (omega (arith, count_of_not_any p m gone)))
  ]

  pub any_of_count : (l m : List A) → count p m ≡ count p l → any p l ≡ true → any p m ≡ true
  any_of_count l m e h = any_of_more l m (omega arith) h

  pub any-keep_both :
      (q : A → Bool) (l : List A) {a : A}
      → Elem a l
      → q a ≡ true
      → p a ≡ true
      → any p (keep q l) ≡ true
  any-keep_both q [] m h k = elim m [ ]
  any-keep_both q (x ∷ l) (inl e) h k = ground (arith, e)
  any-keep_both q (x ∷ l) (inr m) h k = ground (arith, any-keep_both q l m h k)
