-- ===== src/Base/Sets.antt =====
-- Python's sets and dictionaries of identifiers: a set is a list, a dictionary a function that says
-- what a key has, if it is there.
use Prim.Native.Nat.{ℕ, zero, suc}
use mathlib.Core.Path.{◌≡◌, refl}
use mathlib.Core.Bool.{Bool, true, false, not, ◌&&◌, ◌||◌}
use mathlib.Core.Option.{Option, none, some}
use mathlib.Core.List.{List, [], ◌∷◌}
use native.Mathlib.Omega.{arith}
use messenger_backend.Base.Tests.{if◌then◌else◌, ◌==◌}
use messenger_backend.Base.Rows.{keep}

-- `k in s`
abbrev pub contains : ℕ → List ℕ → Bool
contains k [] = false
contains k (j ∷ s) = (j == k) || contains k s

abbrev pub add : ℕ → List ℕ → List ℕ
add k s = if contains k s then s else k ∷ s

abbrev pub discard : ℕ → List ℕ → List ℕ
discard k s = keep (λ j. not (j == k)) s

-- `s.update(t)`
abbrev pub add_all : List ℕ → List ℕ → List ℕ
add_all [] s = s
add_all (k ∷ t) s = add k (add_all t s)

abbrev pub is_empty {ℓ} : {A : Type ℓ} → List A → Bool
is_empty [] = true
is_empty (_ ∷ _) = false

pub contains-add : (i k : ℕ) (s : List ℕ) → contains i (add k s) ≡ ((k == i) || contains i s)
contains-add i k s = ground arith

pub contains-discard :
    (i k : ℕ) (s : List ℕ) → contains i (discard k s) ≡ (contains i s && not (k == i))
contains-discard i k [] = refl
contains-discard i k (j ∷ s) = ground (arith, contains-discard i k s)

pub contains-add_all :
    (i : ℕ) (t s : List ℕ) → contains i (add_all t s) ≡ (contains i t || contains i s)
contains-add_all i [] s = refl
contains-add_all i (k ∷ t) s =
    ground (arith, contains-add_all i t s, contains-add i k (add_all t s))

abbrev pub Dict : Type 0 → Type 0
Dict A = ℕ → Option A

module _ {A : Type 0} where
  abbrev pub put : ℕ → A → Dict A → Dict A
  put k a d j = if j == k then some a else d j

  -- `d.pop(k, None)`
  abbrev pub pop : ℕ → Dict A → Dict A
  pop k d j = if j == k then none else d j

abbrev pub or_empty : {A : Type 0} → Option (List A) → List A
or_empty none = []
or_empty (some s) = s

-- `d[k].discard(i)`, then `d.pop(k)` if the set is empty, of a `defaultdict(set)`.
abbrev pub discard_at : ℕ → ℕ → Dict (List ℕ) → Dict (List ℕ)
discard_at k i d =
    let rest = discard i (or_empty (d k)) in if is_empty rest then pop k d else put k rest d

-- `d[k].add(i)` of a `defaultdict(set)`.
abbrev pub add_at : ℕ → ℕ → Dict (List ℕ) → Dict (List ℕ)
add_at k i d = put k (add i (or_empty (d k))) d

-- `i in d.get(k, set())`
abbrev pub is_in : ℕ → ℕ → Dict (List ℕ) → Bool
is_in k i d = contains i (or_empty (d k))

pub is_in-add_at :
    (h j k i : ℕ) (d : Dict (List ℕ))
    → is_in h j (add_at k i d) ≡ (is_in h j d || ((h == k) && (i == j)))
is_in-add_at h j k i d = ground (arith, contains-add j i (or_empty (d k)))

pub is_in-discard_at :
    (h j k i : ℕ) (d : Dict (List ℕ))
    → is_in h j (discard_at k i d) ≡ (is_in h j d && not ((h == k) && (i == j)))
is_in-discard_at h j k i d = ground (arith, contains-discard j i (or_empty (d k)))

-- The library's, over the native ℕ.
abbrev pub length {ℓ} : {A : Type ℓ} → List A → ℕ
length [] = zero
length (_ ∷ l) = suc (length l)

pub discard_absent : (k : ℕ) (s : List ℕ) → contains k s ≡ false → discard k s ≡ s
discard_absent k [] h = refl
discard_absent k (j ∷ s) h = ground (arith, discard_absent k s)

-- The keys are pairwise different, and none is in the set.
abbrev pub AreNew : List ℕ → List ℕ → Type 0
AreNew [] s = Unit
AreNew (k ∷ l) s = (contains k s ≡ false) × AreNew l (k ∷ s)
