-- ===== src/Base/Dedupe.antt =====
-- The loop by which the program reads a batch of facts: each fact is validated, a repeated
-- identifier must repeat the same fact, and the first of each identifier is kept.
pub mod Laws
use mathlib.Core.Path.{◌≡◌, refl, sym, ◌∙◌}
use mathlib.Core.Logic.{◌↔◌, inl, inr}
use mathlib.Core.Bool.{Bool, true, false}
use mathlib.Core.Option.{Option, none, some}
use mathlib.Core.List.{List, [], ◌∷◌}
use Prim.Native.String.{String}
use native.Mathlib.Omega.{arith}
use text.Mathlib.TextEquality.{eq_iff}
use impact_graph.Base.Tests.{◌==◌, if◌then◌else◌, Bool-cases, Option-cases, ==_refl}
use impact_graph.Base.Lists.{All, find}
use impact_graph.Base.Outcome.{Result, ok, err}
use impact_graph.Base.Maps.{Dict, lookup, insert, lookup-insert}

-- The fact of the given identifier: the first in the list.
abbrev pub by_id {ℓ} : {A : Type ℓ} → (A → String) → String → List A → Option A
by_id id k xs = find (λ x. id x == k) xs

-- `result = append(result, x)` in front of what the rest of the loop appends
abbrev pub cons_ok {ℓ} : {E A : Type ℓ} → A → Result E (List A) → Result E (List A)
cons_ok x (ok xs) = ok (x ∷ xs)
cons_ok x (err e) = err e

module _ {ℓ} {E A : Type ℓ} (id : A → String) (same : A → A → Bool) (valid : A → Bool) (e : E) where
  unfoldable pub dedupe_from : Dict A → List A → Result E (List A)
  dedupe_from seen [] = ok []
  dedupe_from seen (x ∷ xs) = elim (valid x) [
    | false ↦ err e
    | true ↦ elim (lookup (id x) seen) [
      | none ↦ cons_ok x (dedupe_from (insert (id x) x seen) xs)
      | some old ↦ elim (same old x) [ true ↦ dedupe_from seen xs | false ↦ err e ]
    ]
  ]

  unfoldable pub dedupe : List A → Result E (List A)
  unfolding dedupe_from
  dedupe xs = dedupe_from [] xs
