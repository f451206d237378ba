-- ===== src/Reconcile/Listing/Covers.antt =====
-- What the listing of a split range holds.
use impact_graph.Base.{
  ℕ, zero, suc, ◌-◌, ◌/◌, ◌≤◌, ◌≡◌, inl, inr, List, [], ◌∷◌, ◌++◌, Exists, Result, ok, >>=-ok,
  arith, ltb, Bool-cases,
}
use impact_graph.Recognition.Facts.{Time}
use impact_graph.Payments.Facts.{second}
use impact_graph.Reconcile.Listing.{ListFailure, middle, list_splitting, ListFailure-cases}

Exists-append_left :
    {A : Type 0} (P : A → Type 0) (xs ys : List A) → Exists P xs → Exists P (xs ++ ys)
Exists-append_left P [] ys h = absurd h
Exists-append_left P (x ∷ xs) ys (inl here) = inl here
Exists-append_left P (x ∷ xs) ys (inr later) = inr (Exists-append_left P xs ys later)

Exists-append_right :
    {A : Type 0} (P : A → Type 0) (xs ys : List A) → Exists P ys → Exists P (xs ++ ys)
Exists-append_right P [] ys h = h
Exists-append_right P (x ∷ xs) ys h = inr (Exists-append_right P xs ys h)

module _ {Object : Type 0} (list : Time → Time → Result ListFailure (List Object)) (o : Object)
    (created : ℕ)
    (answers : (s e : Time) (xs : List Object)
      → list s e ≡ ok xs
      → s / second ≤ created
      → created ≤ e / second
      → Exists (λ x. x ≡ o) xs) where
  -- If each answer of a call holds an object created in a second of its range, then so does the answer
  -- of the split listing, for a range after the first second: the halves leave no second out.
  pub list_splitting-covers :
      (fuel : ℕ) (start end : Time) {xs : List Object}
      → second ≤ start
      → list_splitting list fuel start end ≡ ok xs
      → start / second ≤ created
      → created ≤ end / second
      → Exists (λ x. x ≡ o) xs
  unfolding list_splitting
  list_splitting-covers zero start end late h from upto = absurd (ground arith)
  list_splitting-covers (suc fuel) start end {xs} late h from upto =
      elim (ListFailure-cases (list start end)) [
        | inl (ys, e) ↦
            let k = rw (list_splitting, e) at h in
            let same : ys ≡ xs = ground arith in rw (← same) (answers start end ys e from upto)
        | inr (inr (inl e)) ↦ let k = rw (list_splitting, e) at h in absurd (ground arith)
        | inr (inr (inr e)) ↦ let k = rw (list_splitting, e) at h in absurd (ground arith)
        | inr (inl e) ↦ elim (Bool-cases (ltb start end)) [
          | inr closed ↦ let k = rw (list_splitting, e, closed) at h in absurd (ground arith)
          | inl open_range ↦
              let k = rw (list_splitting, e, open_range) at h in
              let mid = middle start end in
              let (left, e₁, f₁) = >>=-ok (list_splitting list fuel start (mid - second)) _ k in
              let (right, e₂, f₂) = >>=-ok (list_splitting list fuel mid end) _ f₁ in
              let same : left ++ right ≡ xs = ground arith in
              rw (← same) (elim (Bool-cases (ltb created (mid / second))) [
                | inl early ↦
                    Exists-append_left (λ x. x ≡ o) left right
                      (list_splitting-covers fuel start (mid - second) late e₁ from (ground arith))
                | inr later ↦
                    Exists-append_right (λ x. x ≡ o) left right
                      (list_splitting-covers fuel mid end (omega arith) e₂ (ground arith) upto)
              ])
        ]
      ]
