-- ===== src/Financial/Refresh.antt =====
-- `nextRefresh`: the time it gives is the first boundary ahead, or the default where there is none.
use impact_graph.Base.{
  ◌≤◌, ◌<◌, arith, ◌≡◌, refl, ◌&&◌, List, [], ◌∷◌, ◌⊎◌, inl, inr, if◌then◌else◌, All, Exists, ◌∙◌,
}
use impact_graph.Recognition.Facts.{Time, after, before}
use impact_graph.Recognition.Net.Steady.{IsSteady}
use impact_graph.Financial.{earliest_after}

-- `t` is the earliest of `latest` and the boundaries after `now`.
record IsEarliest (now latest : Time) (boundaries : List Time) (t : Time) : Type 0 where
  pub within : t ≤ latest
  pub not_after : All (λ b. now < b → t ≤ b) boundaries
  pub is_one : (t ≡ latest) ⊎ Exists (λ b. (now < b) × (t ≡ b)) boundaries

-- One pass of the loop.
abbrev nearer : Time → Time → Time → Time
nearer now next b = if after b now && before b next then b else next

nearer_lem :
    (now next b : Time)
    → (nearer now next b ≤ next)
      × (now < b → nearer now next b ≤ b)
      × ((nearer now next b ≡ next) ⊎ ((now < b) × (nearer now next b ≡ b)))
nearer_lem now next b = ground arith

earliest_after-IsEarliest :
    (now latest : Time) (bs : List Time) → IsEarliest now latest bs (earliest_after now latest bs)
unfolding earliest_after
earliest_after-IsEarliest now latest [] = record {
  within = omega arith;
  not_after = _;
  is_one = inl refl;
}
earliest_after-IsEarliest now latest (b ∷ bs) =
    let (small, ahead, which) = nearer_lem now latest b in
    let rest = earliest_after-IsEarliest now (nearer now latest b) bs in
    record {
      within = omega (arith, rest.within, small);
      not_after = (λ later. omega (arith, rest.within, ahead later), rest.not_after);
      is_one = elim rest.is_one [
        | inr found ↦ inr (inr found)
        | inl same ↦ elim which [
          | inl kept ↦ inl (same ∙ kept)
          | inr (later, taken) ↦ inr (inl (later, same ∙ taken))
        ]
      ];
    }

All-earlier :
    (now later t : Time) (bs : List Time)
    → now ≤ later
    → later < t
    → All (λ b. now < b → t ≤ b) bs
    → All (IsSteady now later) bs
All-earlier now later t [] on ahead h = tt
All-earlier now later t (b ∷ bs) on ahead (first, more) =
    (ground (arith, first), All-earlier now later t bs on ahead more)

-- Between now and the time that the loop gives there is no boundary.
pub earliest_after-IsSteady :
    (now later latest : Time) (bs : List Time)
    → now ≤ later
    → later < earliest_after now latest bs
    → All (IsSteady now later) bs
earliest_after-IsSteady now later latest bs on ahead =
    All-earlier now later (earliest_after now latest bs) bs on ahead
      (earliest_after-IsEarliest now latest bs).not_after

-- The loop keeps ahead of now.
pub earliest_after_ahead :
    (now latest : Time) (bs : List Time)
    → now < latest
    → (now < earliest_after now latest bs) × (earliest_after now latest bs ≤ latest)
unfolding earliest_after
earliest_after_ahead now latest [] h = (h, omega arith)
earliest_after_ahead now latest (b ∷ bs) h =
    let (small, _, _) = nearer_lem now latest b in
    let still : now < nearer now latest b = ground arith in
    let (ahead, within) = earliest_after_ahead now (nearer now latest b) bs still in
    (ahead, omega (arith, within, small))
