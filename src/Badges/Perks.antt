-- ===== src/Badges/Perks.antt =====
-- Who holds a perk.
use impact_graph.Base.{
  String, or-false, ◌≡◌, ◌≢◌, ◌↔◌, inl, inr, Bool, true, false, List, [], ◌∷◌, ◌==◌, eq_iff,
  if◌then◌else◌, Bool-cases, arith, Dict, Exists, pos, leb_ℤ,
}
use impact_graph.Badges.{
  Badge, Signals, perk_none, catalog, codes_with, codes_for_perk, holds, holds_any, holds_perk,
  evaluate, is_live,
}
use impact_graph.Badges.Earned.{holds-evaluate}

-- A badge of the list carries the perk, and its code is set.
abbrev pub Carries : String → Dict Bool → Badge → Type 0
Carries perk earned b = (b.perk ≡ perk) × (holds b.code earned ≡ true)

holds_any-codes_with :
    (earned : Dict Bool) (perk : String) (bs : List Badge)
    → (holds_any earned (codes_with perk bs) ≡ true) ↔ Exists (Carries perk earned) bs
unfolding holds_any codes_with
holds_any-codes_with earned perk [] = (λ h. cc, λ h. absurd h)
holds_any-codes_with earned perk (b ∷ bs) =
    let rest = holds_any-codes_with earned perk bs in
    elim (Bool-cases (b.perk == perk)) [
      | inl same ↦
          let e = (eq_iff b.perk perk).0 same in
          elim (Bool-cases (holds b.code earned)) [
            | inl set_here ↦ (λ _. inl (e, set_here), λ _. ground arith)
            | inr unset ↦ (
              λ h. inr (rest.0 (ground arith)),
              elim [ inl here ↦ ground arith | inr there ↦ let r = rest.1 there in ground arith ],
            )
          ]
      | inr other ↦ (
        λ h. inr (rest.0 (ground arith)),
        elim [
          | inl here ↦ let e = (eq_iff b.perk perk).1 here.0 in ground arith
          | inr there ↦ let r = rest.1 there in ground arith
        ],
      )
    ]

gated :
    (earned : Dict Bool) (perk : String) (bs : List Badge)
    → ((if perk == perk_none
          then false
          else holds_any earned (if perk == perk_none then [] else codes_with perk bs))
        ≡ true)
      ↔ ((perk ≢ perk_none) × Exists (Carries perk earned) bs)
gated earned perk bs =
    let carried = holds_any-codes_with earned perk bs in
    elim (Bool-cases (perk == perk_none)) [
      | inl unnamed ↦
          (λ h. absurd (ground arith), λ h. absurd (h.0 ((eq_iff perk perk_none).0 unnamed)))
      | inr named ↦ (
        λ h. ((λ e. let q = (eq_iff perk perk_none).1 e in ground arith), carried.0 (ground arith)),
        λ h. let r = carried.1 h.1 in ground arith,
      )
    ]

-- A donor holds a perk exactly when the perk is named and a badge of the catalog that carries it is
-- among the earned ones.
pub holds_perk_iff :
    (earned : Dict Bool) (perk : String)
    → (holds_perk earned perk ≡ true) ↔ ((perk ≢ perk_none) × Exists (Carries perk earned) catalog)
unfolding holds_perk codes_for_perk
holds_perk_iff earned perk = gated earned perk catalog

-- Among the badges that `Evaluate` awards, the Team Captain perk is held from twenty converted
-- referrals on, the founding perk by a qualified founding donor, and the milestone perk from a
-- thousand days on.
holds_perk-evaluate :
    (s : Signals)
    → (holds_perk (evaluate s) "TEAM_CAPTAIN" ≡ leb_ℤ (pos 20) s.converted_referrals)
      × (holds_perk (evaluate s) "FOUNDING_EVENTS" ≡ s.founding_qualified)
      × (holds_perk (evaluate s) "MILESTONE_EVENTS" ≡ leb_ℤ (pos 1000) s.streak_days)
unfolding holds_perk codes_for_perk is_live
holds_perk-evaluate s = (
  simp (holds-evaluate, or-false),
  simp (holds-evaluate, or-false),
  simp (holds-evaluate, or-false),
)
