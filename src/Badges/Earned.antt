-- ===== src/Badges/Earned.antt =====
-- What `Evaluate` awards.
use impact_graph.Base.{
  String, ◌≡◌, refl, ap, Bool, true, false, ◌&&◌, ◌||◌, none, List, [], ◌∷◌, ◌==◌, eq_iff,
  if◌then◌else◌, keep, Bool-cases, inl, inr, arith, Dict, lookup, insert, lookup-insert,
}
use impact_graph.Badges.{Signals, conditions, holds, award, is_live, evaluate}

-- Some condition that is met sets the code.
abbrev pub met_for : String → List (Bool × String) → Bool
met_for k [] = false
met_for k ((met, code) ∷ rest) = (code == k && met) || met_for k rest

holds-award :
    (k : String) (cs : List (Bool × String)) (earned : Dict Bool)
    → holds k (award cs earned) ≡ (met_for k cs || holds k earned)
unfolding award
holds-award k [] earned = refl
holds-award k ((met, code) ∷ cs) earned = ground (
  arith,
  holds-award k cs (if met then insert code true earned else earned),
  lookup-insert code k true earned,
)

lookup-keep :
    (live : String → Bool) (k : String) (m : Dict Bool)
    → lookup k (keep (λ e. live e.0) m) ≡ (if live k then lookup k m else none)
unfolding lookup keep
lookup-keep live k [] = ground arith
lookup-keep live k ((j, v) ∷ m) = elim (Bool-cases (j == k)) [
  | inl same ↦
      let e : live j ≡ live k = ap live ((eq_iff j k).0 same) in
      ground (arith, e, lookup-keep live k m)
  | inr other ↦ ground (arith, lookup-keep live k m)
]

holds-keep-award :
    (live : String → Bool) (k : String) (cs : List (Bool × String))
    → holds k (keep (λ e. live e.0) (award cs [])) ≡ (live k && met_for k cs)
unfolding lookup
holds-keep-award live k cs = ground (arith, lookup-keep live k (award cs []), holds-award k cs [])

-- `Evaluate` awards exactly the live badges of the catalog of which some condition is met.
pub holds-evaluate :
    (k : String) (s : Signals) → holds k (evaluate s) ≡ (is_live k && met_for k (conditions s))
unfolding evaluate
holds-evaluate k s = holds-keep-award is_live k (conditions s)
