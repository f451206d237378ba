-- ===== src/Base/Maps.antt =====
-- Go maps with string keys, as association lists; the program reads them by key only.
use Prim.Native.String.{String}
use mathlib.Core.Path.{◌≡◌, refl}
use mathlib.Core.Bool.{Bool, true, false}
use mathlib.Core.Option.{Option, none, some}
use mathlib.Core.List.{List, [], ◌∷◌}
use native.Mathlib.Omega.{arith}
use text.Mathlib.TextEquality.{eq_iff}
use impact_graph.Base.Tests.{◌==◌, if◌then◌else◌}

abbrev pub Dict {ℓ} : Type ℓ → Type ℓ
Dict V = List (String × V)

module _ {ℓ} {V : Type ℓ} where
  -- `m[key] = new`: the entry is replaced where the key stands, and else added at the end.
  unfoldable pub insert : String → V → Dict V → Dict V
  insert key new ((at, old) ∷ more) =
      if at == key then (at, new) ∷ more else (at, old) ∷ insert key new more
  insert key new [] = (key, new) ∷ []

  unfoldable pub lookup : String → Dict V → Option V
  lookup key ((at, found) ∷ more) = if at == key then some found else lookup key more
  lookup key [] = none

  -- `_, ok := m[key]`
  abbrev pub contains : String → Dict V → Bool
  contains key m = elim (lookup key m) [ none ↦ false | some _ ↦ true ]

  -- `m[key]` with the zero value where the key is missing
  abbrev pub get_or : V → String → Dict V → V
  get_or zero_value key m = elim (lookup key m) [ none ↦ zero_value | some found ↦ found ]

  -- What is looked up after an insertion: the new value under its key, and the old ones elsewhere.
  pub lookup-insert :
      (key other : String) (new : V) (table : Dict V)
      → lookup other (insert key new table)
        ≡ (if key == other then some new else lookup other table)
  unfolding insert lookup
  lookup-insert key other new ((at, old) ∷ more) =
      ground
        (arith, lookup-insert key other new more, eq_iff at other, eq_iff at key, eq_iff key other)
  lookup-insert key other new [] = refl
