-- ===== src/Base/Dedupe/Laws.antt =====
-- What the de-duplicating loop accepts, and what it returns.
use mathlib.Core.Path.{◌≡◌, refl, sym, ap, ◌∙◌}
use mathlib.Core.Logic.{◌↔◌, ◌⊎◌, inl, inr}
use mathlib.Core.Bool.{Bool, true}
use mathlib.Core.Option.{Option, none, some}
use mathlib.Core.List.{List, [], ◌∷◌}
use Prim.Native.String.{String}
use native.Mathlib.Omega.{arith}
use text.Mathlib.TextEquality.{eq_iff}
use impact_graph.Base.Tests.{Option-cases, ==_refl}
use impact_graph.Base.Lists.{All, find}
use impact_graph.Base.Outcome.{Result, ok, err}
use impact_graph.Base.Maps.{Dict, lookup, insert, lookup-insert}
use impact_graph.Base.Dedupe.{by_id, cons_ok, dedupe_from, dedupe}

-- Every identifier stands for one fact: each fact is the first of its identifier.
abbrev pub IsConsistent {ℓ} : {A : Type ℓ} → (A → String) → List A → Type ℓ
IsConsistent id xs = All (λ x. by_id id (id x) xs ≡ some x) xs

abbrev pub AllValid {ℓ} : {A : Type ℓ} → (A → Bool) → List A → Type 0
AllValid valid xs = All (λ x. valid x ≡ true) xs

-- The fact that stands for an identifier, once `xs` have been read after `seen`.
abbrev resolve {ℓ} : {A : Type ℓ} → (A → String) → Dict A → List A → String → Option A
resolve id seen xs k = elim (lookup k seen) [ none ↦ by_id id k xs | some y ↦ some y ]

-- Conjunctions under `All`.
All-split {ℓ κ μ} :
    {A : Type ℓ} (P : A → Type κ) (Q : A → Type μ) (xs : List A)
    → All (λ x. P x × Q x) xs
    → All P xs × All Q xs
All-split P Q [] h = (tt, tt)
All-split P Q (x ∷ xs) h = let (p, q) = All-split P Q xs h.1 in ((h.0.0, p), (h.0.1, q))

All-join {ℓ κ μ} :
    {A : Type ℓ} (P : A → Type κ) (Q : A → Type μ) (xs : List A)
    → All P xs × All Q xs
    → All (λ x. P x × Q x) xs
All-join P Q [] h = tt
All-join P Q (x ∷ xs) h = ((h.0.0, h.1.0), All-join P Q xs (h.0.1, h.1.1))

module _ {ℓ} {E A : Type ℓ} (id : A → String) (same : A → A → Bool) (valid : A → Bool) (e : E)
    (same_iff : (x y : A) → (same x y ≡ true) ↔ (x ≡ y)) where
  resolve-insert :
      (seen : Dict A) (x : A) (xs : List A)
      → lookup (id x) seen ≡ none
      → (k : String) → resolve id (insert (id x) x seen) xs k ≡ resolve id seen (x ∷ xs) k
  unfolding find
  resolve-insert seen x xs new k = ground (arith, lookup-insert (id x) k x seen, eq_iff (id x) k)

  resolve-seen :
      (seen : Dict A) (x : A) (xs : List A)
      → lookup (id x) seen ≡ some x
      → (k : String) → resolve id seen xs k ≡ resolve id seen (x ∷ xs) k
  unfolding find
  resolve-seen seen x xs old k = ground (arith, eq_iff (id x) k)

  -- What the rest of the loop needs of the facts still to read.
  abbrev Accepts : (String → Option A) → List A → Type ℓ
  Accepts table xs = All (λ x. (valid x ≡ true) × (table (id x) ≡ some x)) xs

  -- How a pass of a loop that ends without an error went: a new identifier, or a repeated fact.
  abbrev Passes : Dict A → A → List A → List A → Type ℓ
  Passes seen x xs r =
      ((lookup (id x) seen ≡ none)
        × ((r' : List A) × (dedupe_from id same valid e (insert (id x) x seen) xs ≡ ok r')
            × (r ≡ x ∷ r')))
      ⊎ ((lookup (id x) seen ≡ some x) × (dedupe_from id same valid e seen xs ≡ ok r))

  cons_ok-eq-ok :
      (x : A) (m : Result E (List A)) {r : List A}
      → cons_ok x m ≡ ok r
      → (r' : List A) × (m ≡ ok r') × (r ≡ x ∷ r')
  cons_ok-eq-ok x (ok r') h = (r', refl, ground arith)
  cons_ok-eq-ok x (err _) h = cc

  dedupe_from_new :
      (seen : Dict A) (x : A) (xs : List A)
      → valid x ≡ true
      → lookup (id x) seen ≡ none
      → dedupe_from id same valid e seen (x ∷ xs)
        ≡ cons_ok x (dedupe_from id same valid e (insert (id x) x seen) xs)
  unfolding dedupe_from
  dedupe_from_new seen x xs v new = ground arith

  dedupe_from_old :
      (seen : Dict A) (x : A) (xs : List A)
      → valid x ≡ true
      → lookup (id x) seen ≡ some x
      → dedupe_from id same valid e seen (x ∷ xs) ≡ dedupe_from id same valid e seen xs
  unfolding dedupe_from
  dedupe_from_old seen x xs v old = ground (arith, same_iff x x)

  dedupe_from-Passes :
      (seen : Dict A) (x : A) (xs : List A) {r : List A}
      → dedupe_from id same valid e seen (x ∷ xs) ≡ ok r
      → (valid x ≡ true) × Passes seen x xs r
  unfolding dedupe_from
  dedupe_from-Passes seen x xs {r} h =
      let v : valid x ≡ true = ground arith in
      (
        v,
        elim (Option-cases (lookup (id x) seen)) [
          | inl new ↦ inl (new, cons_ok-eq-ok x _ (sym (dedupe_from_new seen x xs v new) ∙ h))
          | inr (old, seen_old) ↦ inr (ground (arith, same_iff old x), ground arith)
        ],
      )

  All-dedupe_from :
      (P : A → Type 0) (seen : Dict A) (xs : List A) {r : List A}
      → dedupe_from id same valid e seen xs ≡ ok r
      → All P xs
      → All P r
  unfolding dedupe_from
  All-dedupe_from P seen [] {r} h k = let none_left : r ≡ [] = ground arith in rw none_left tt
  All-dedupe_from P seen (x ∷ xs) h k = elim (dedupe_from-Passes seen x xs h).1 [
    | inl (new, (r', rest, split)) ↦
        rw split (k.0, All-dedupe_from P (insert (id x) x seen) xs rest k.1)
    | inr (old, rest) ↦ All-dedupe_from P seen xs rest k.1
  ]

  -- What holds of every fact holds of those that are kept.
  pub All-dedupe :
      (P : A → Type 0) (xs : List A) {r : List A}
      → dedupe id same valid e xs ≡ ok r
      → All P xs
      → All P r
  unfolding dedupe
  All-dedupe P xs h k = All-dedupe_from P [] xs h k

  dedupe_from-Accepts :
      (table : String → Option A) (seen : Dict A) (xs : List A) {r : List A}
      → ((k : String) → table k ≡ resolve id seen xs k)
      → dedupe_from id same valid e seen xs ≡ ok r
      → Accepts table xs
  unfolding find
  dedupe_from-Accepts table seen [] agree h = tt
  dedupe_from-Accepts table seen (x ∷ xs) {r} agree h =
      let (v, pass) = dedupe_from-Passes seen x xs h in
      elim pass [
        | inl (new, (r', rest, split)) ↦ (
          (v, agree (id x) ∙ ground (arith, ==_refl (id x))),
          dedupe_from-Accepts table (insert (id x) x seen) xs
              (λ k. agree k ∙ sym (resolve-insert seen x xs new k)) rest,
        )
        | inr (old, rest) ↦ (
          (v, agree (id x) ∙ ground arith),
          dedupe_from-Accepts table seen xs (λ k. agree k ∙ sym (resolve-seen seen x xs old k))
              rest,
        )
      ]

  dedupe_from_returns :
      (table : String → Option A) (seen : Dict A) (xs : List A)
      → ((k : String) → table k ≡ resolve id seen xs k)
      → Accepts table xs
      → (r : List A) × (dedupe_from id same valid e seen xs ≡ ok r)
  unfolding dedupe_from find
  dedupe_from_returns table seen [] agree h = ([], refl)
  dedupe_from_returns table seen (x ∷ xs) agree h = elim (Option-cases (lookup (id x) seen)) [
    | inl new ↦
        let (r, rest) =
          dedupe_from_returns table (insert (id x) x seen) xs
            (λ k. agree k ∙ sym (resolve-insert seen x xs new k)) h.1 in
        (x ∷ r, dedupe_from_new seen x xs h.0.0 new ∙ ap (cons_ok x) rest)
    | inr (old, seen_old) ↦
        let known : lookup (id x) seen ≡ some x = ground (arith, agree (id x)) in
        let (r, rest) =
          dedupe_from_returns table seen xs (λ k. agree k ∙ sym (resolve-seen seen x xs known k))
            h.1 in
        (r, dedupe_from_old seen x xs h.0.0 known ∙ rest)
  ]

  -- What the result holds under an identifier: the first fact, unless it was seen before.
  dedupe_from-by_id :
      (seen : Dict A) (xs : List A) {r : List A}
      → dedupe_from id same valid e seen xs ≡ ok r
      → (k : String)
      → by_id id k r ≡ (elim (lookup k seen) [ none ↦ by_id id k xs | some _ ↦ none ])
  unfolding dedupe_from find
  dedupe_from-by_id seen [] {r} h k = let e' : r ≡ [] = ground arith in rw e' (ground arith)
  dedupe_from-by_id seen (x ∷ xs) {r} h k =
      let (v, pass) = dedupe_from-Passes seen x xs h in
      elim pass [
        | inl (new, (r', rest, split)) ↦ rw split (
            ground (
              arith,
              dedupe_from-by_id (insert (id x) x seen) xs rest k,
              lookup-insert (id x) k x seen,
              eq_iff (id x) k,
            ))
        | inr (old, rest) ↦ ground (arith, dedupe_from-by_id seen xs rest k, eq_iff (id x) k)
      ]

  -- Reading the result again returns it.
  dedupe_from_again :
      (seen seen' : Dict A) (xs : List A) {r : List A}
      → dedupe_from id same valid e seen xs ≡ ok r
      → ((k : String) → lookup k seen ≡ none → lookup k seen' ≡ none)
      → dedupe_from id same valid e seen' r ≡ ok r
  unfolding dedupe_from
  dedupe_from_again seen seen' [] {r} h fewer = let e' : r ≡ [] = ground arith in rw e' refl
  dedupe_from_again seen seen' (x ∷ xs) {r} h fewer =
      let (v, pass) = dedupe_from-Passes seen x xs h in
      elim pass [
        | inl (new, (r', rest, split)) ↦ rw split (
            dedupe_from_new seen' x r' v (fewer (id x) new)
            ∙ ap (cons_ok x) (
                dedupe_from_again (insert (id x) x seen) (insert (id x) x seen') xs rest (λ k free.
                  ground (
                    arith,
                    lookup-insert (id x) k x seen,
                    lookup-insert (id x) k x seen',
                    fewer k,
                  ))))
        | inr (old, rest) ↦ dedupe_from_again seen seen' xs rest fewer
      ]

  -- The loop returns a list exactly when every fact is valid and each identifier stands for one.
  pub dedupe_iff :
      (xs : List A)
      → ((r : List A) × (dedupe id same valid e xs ≡ ok r))
        ↔ (AllValid valid xs × IsConsistent id xs)
  unfolding dedupe lookup
  dedupe_iff xs =
      let IsValid = λ (x : A). valid x ≡ true in
      let Stands = λ (x : A). by_id id (id x) xs ≡ some x in
      (
        (λ (r, h).
            All-split IsValid Stands xs
              (dedupe_from-Accepts (λ k. by_id id k xs) [] xs (λ k. refl) h)),
        (λ h.
            dedupe_from_returns (λ k. by_id id k xs) [] xs (λ k. refl)
              (All-join IsValid Stands xs h)),
      )

  pub dedupe-by_id :
      (xs : List A) {r : List A}
      → dedupe id same valid e xs ≡ ok r
      → (k : String) → by_id id k r ≡ by_id id k xs
  unfolding dedupe lookup
  dedupe-by_id xs h k = dedupe_from-by_id [] xs h k

  pub dedupe_again :
      (xs : List A) {r : List A}
      → dedupe id same valid e xs ≡ ok r
      → dedupe id same valid e r ≡ ok r
  unfolding dedupe
  dedupe_again xs h = dedupe_from_again [] [] xs h (λ k free. free)

  -- The result is valid and holds each identifier once.
  pub dedupe_clean :
      (xs : List A) {r : List A}
      → dedupe id same valid e xs ≡ ok r
      → AllValid valid r × IsConsistent id r
  dedupe_clean xs {r} h = (dedupe_iff r).0 (r, dedupe_again xs h)
