-- ===== src/Events/Invited.antt =====
-- The list of invite-only events and the gate before one agree.
use impact_graph.Base.{
  ℕ, String, ◌≡◌, refl, inl, inr, Bool, true, false, List, [], ◌∷◌, map, keep, Bool-cases, Dict,
  ◌==◌, if◌then◌else◌,
}
use impact_graph.Badges.{holds_perk}
use impact_graph.Events.{Event, Store}
use impact_graph.Events.Gate.{can_see_invite_only, visible_events, earned_codes, is_event_guest}

-- No perk is held where none qualifies, so the list may ask without the test of the gate.
perk_asked :
    (earned : Dict Bool) (perk : String)
    → (if perk == "" then false else holds_perk earned perk) ≡ holds_perk earned perk
unfolding holds_perk
perk_asked earned perk = elim (Bool-cases (perk == "")) [ inl h ↦ rw h refl | inr h ↦ rw h refl ]

can_see-holds :
    (s : Store) (donor : ℕ) (e : Event)
    → can_see_invite_only s donor e ≡ (
        if holds_perk (earned_codes donor s.badge_codes) e.qualifying_perk
        then (true, true)
        else (is_event_guest e.id donor s, false))
unfolding can_see_invite_only
can_see-holds s donor e = rw (perk_asked (earned_codes donor s.badge_codes) e.qualifying_perk) refl

-- `InviteOnlyEvents` lists exactly those of its candidates that `canSeeInviteOnly`, the gate before the
-- detail, the calendar and a reservation, lets the donor see, in their order, and marks exactly those
-- that the gate passes by a perk.
pub visible_events-can_see_invite_only :
    (s : Store) (donor : ℕ) (es : List Event)
    → visible_events s donor es
      ≡ map
          (λ e. (e, (can_see_invite_only s donor e).1))
          (keep (λ e. (can_see_invite_only s donor e).0) es)
unfolding visible_events keep
visible_events-can_see_invite_only s donor [] = refl
visible_events-can_see_invite_only s donor (e ∷ es) =
    let rest = visible_events-can_see_invite_only s donor es in
    let gate = can_see-holds s donor e in
    elim (Bool-cases (holds_perk (earned_codes donor s.badge_codes) e.qualifying_perk)) [
      | inl perk ↦ let g = rw perk at gate in rw (perk, g) (rw g (rw rest refl))
      | inr none_held ↦
          let g = rw none_held at gate in
          elim (Bool-cases (is_event_guest e.id donor s)) [
            | inl guest ↦ rw (none_held, g, guest) (rw g (rw rest refl))
            | inr stranger ↦ rw (none_held, g, stranger) rest
          ]
    ]
