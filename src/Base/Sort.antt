-- ===== src/Base/Sort.antt =====
-- `slices.SortFunc` as insertion sort over a total order.
use mathlib.Core.Path.{◌≡◌, refl, ◌∙◌}
use mathlib.Core.Logic.{inl, inr}
use mathlib.Core.Bool.{Bool, true, false}
use mathlib.Core.Option.{Option, none, some}
use mathlib.Core.List.{List, [], ◌∷◌}
use native.Mathlib.Omega.{arith}
use impact_graph.Base.Tests.{if◌then◌else◌, Bool-cases, Option-cases}
use impact_graph.Base.Lists.{All, find, All-find}

module _ {ℓ} {A : Type ℓ} (le : A → A → Bool) where
  unfoldable pub insert_sorted : A → List A → List A
  insert_sorted x [] = x ∷ []
  insert_sorted x (y ∷ ys) = if le x y then x ∷ y ∷ ys else y ∷ insert_sorted x ys

  unfoldable pub sort : List A → List A
  unfolding insert_sorted
  sort [] = []
  sort (x ∷ xs) = insert_sorted x (sort xs)

  -- Each element is at most every later one.
  abbrev pub IsSorted : List A → Type 0
  IsSorted [] = Unit
  IsSorted (x ∷ xs) = All (λ y. le x y ≡ true) xs × IsSorted xs

-- Keeps the smaller of a candidate and what was found.
abbrev pub smaller {ℓ} : {A : Type ℓ} (le : A → A → Bool) → A → Option A → A
smaller le x none = x
smaller le x (some y) = if le x y then x else y

-- The least element that passes the test.
unfoldable pub least {ℓ} : {A : Type ℓ} (le : A → A → Bool) (p : A → Bool) → List A → Option A
least le p [] = none
least le p (x ∷ xs) = let rest = least le p xs in if p x then some (smaller le x rest) else rest

-- What a caller gives of its comparison.
pub record TotalOrder {ℓ} {A : Type ℓ} (le : A → A → Bool) : Type ℓ where
  pub total : (x y : A) → le x y ≡ false → le y x ≡ true
  pub trans : (x y z : A) → le x y ≡ true → le y z ≡ true → le x z ≡ true

module _ {ℓ} {A : Type ℓ} {le : A → A → Bool} (order : TotalOrder le) where
  All-le_trans :
      (x y : A) (ys : List A)
      → le x y ≡ true
      → All (λ z. le y z ≡ true) ys
      → All (λ z. le x z ≡ true) ys
  All-le_trans x y [] h k = tt
  All-le_trans x y (z ∷ ys) h k = (order.trans x y z h k.0, All-le_trans x y ys h k.1)

  All-insert_sorted :
      (P : A → Type 0) (x : A) (ys : List A) → P x → All P ys → All P (insert_sorted le x ys)
  unfolding insert_sorted
  All-insert_sorted P x [] h k = (h, tt)
  All-insert_sorted P x (y ∷ ys) h k = elim (Bool-cases (le x y)) [
    | inl e ↦ rw e (h, k)
    | inr e ↦ rw e (k.0, All-insert_sorted P x ys h k.1)
  ]

  insert_sorted-IsSorted :
      (x : A) (ys : List A) → IsSorted le ys → IsSorted le (insert_sorted le x ys)
  unfolding insert_sorted
  insert_sorted-IsSorted x [] h = (tt, tt)
  insert_sorted-IsSorted x (y ∷ ys) h = elim (Bool-cases (le x y)) [
    | inl e ↦ rw e ((e, All-le_trans x y ys e h.0), h)
    | inr e ↦ rw e (
      All-insert_sorted (λ z. le y z ≡ true) x ys (order.total x y e) h.0,
      insert_sorted-IsSorted x ys h.1,
    )
  ]

  pub sort-IsSorted : (xs : List A) → IsSorted le (sort le xs)
  unfolding sort
  sort-IsSorted [] = tt
  sort-IsSorted (x ∷ xs) = insert_sorted-IsSorted x (sort le xs) (sort-IsSorted xs)

  find-insert_sorted :
      (p : A → Bool) (x : A) (ys : List A)
      → IsSorted le ys
      → find p (insert_sorted le x ys)
        ≡ (if p x then some (smaller le x (find p ys)) else find p ys)
  unfolding insert_sorted find
  find-insert_sorted p x [] h = refl
  find-insert_sorted p x (y ∷ ys) h = elim (Bool-cases (le x y)) [
    | inl e ↦ elim (Option-cases (find p ys)) [
      | inl f ↦ ground arith
      | inr (z, f) ↦
          ground (arith, All-find (λ z. le x z ≡ true) p ys (All-le_trans x y ys e h.0) f)
    ]
    | inr e ↦ elim (Option-cases (find p ys)) [
      | inl f ↦ ground (arith, find-insert_sorted p x ys h.1)
      | inr (z, f) ↦ ground (arith, find-insert_sorted p x ys h.1)
    ]
  ]

  -- The first match of the sorted list is the least match of the list.
  pub find-sort : (p : A → Bool) (xs : List A) → find p (sort le xs) ≡ least le p xs
  unfolding sort least find
  find-sort p [] = refl
  find-sort p (x ∷ xs) =
      find-insert_sorted p x (sort le xs) (sort-IsSorted xs) ∙ ground (arith, find-sort p xs)
