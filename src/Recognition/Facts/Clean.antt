-- ===== src/Recognition/Facts/Clean.antt =====
-- What `cleanGifts` accepts and returns.
use impact_graph.Base.{
  String, ◌≡◌, refl, ◌↔◌, true, Option, none, some, List, [], ◌∷◌, All, arith, eq_iff, eqb_ℤ_iff,
  ok, leb_ℤ, false, ne→==, ◌≢◌, ◌⊎◌, ◌<◌, ◌<ℤ◌, pos, inl, inr, ap, ◌==◌,
}
use impact_graph.Base.Dedupe.{by_id}
use impact_graph.Base.Dedupe.Laws.{
  All-dedupe, IsConsistent, AllValid, dedupe_iff, dedupe-by_id, dedupe_again, dedupe_clean,
}
use impact_graph.Recognition.Facts.{
  Candidate, Gift, gift_id, candidate_valid, gift_valid, is_zero, candidate_eq, gift_eq,
  clean_gifts, invalid,
}

candidate_eq_iff : (c d : Option Candidate) → (candidate_eq c d ≡ true) ↔ (c ≡ d)
unfolding candidate_eq
candidate_eq_iff none none = ground arith
candidate_eq_iff none (some d) = ground arith
candidate_eq_iff (some c) none = ground arith
candidate_eq_iff (some c) (some d) =
    ground (arith, eq_iff c.referrer_id d.referrer_id, eq_iff c.kind d.kind)

gift_eq_iff : (g h : Gift) → (gift_eq g h ≡ true) ↔ (g ≡ h)
unfolding gift_eq
gift_eq_iff g h = ground (
  arith,
  eq_iff g.id h.id,
  eq_iff g.donor_id h.donor_id,
  eqb_ℤ_iff g.amount h.amount,
  eq_iff g.frequency h.frequency,
  candidate_eq_iff g.candidate h.candidate,
  eq_iff g.period_id h.period_id,
  eq_iff g.currency h.currency,
)

-- What a recorded referral candidate must hold.
pub data IsCandidate : Option Candidate → Type 0 where
  nobody : IsCandidate none
  touch :
      {c : Candidate}
      → c.referrer_id ≢ ""
      → (c.kind ≡ "LINK") ⊎ (c.kind ≡ "IRL")
      → 0 < c.expires_at
      → IsCandidate (some c)

-- What a payment must hold: identifiers, a positive amount of dollars, a time, and a frequency,
-- where only a monthly gift names a billing period.
pub record IsPayment (g : Gift) : Type 0 where
  pub named : g.id ≢ ""
  pub given_by : g.donor_id ≢ ""
  pub positive : pos 0 <ℤ g.amount
  pub dollars : g.currency ≡ "USD"
  pub timed : 0 < g.paid_at
  pub paced : (g.frequency ≡ "MONTHLY") ⊎ ((g.frequency ≡ "ONE_TIME") × (g.period_id ≡ ""))
  pub referred : IsCandidate g.candidate

candidate_valid_sound : (c : Option Candidate) → candidate_valid c ≡ true → IsCandidate c
unfolding candidate_valid
candidate_valid_sound none h = nobody
candidate_valid_sound (some c) h =
    touch (ground (arith, eq_iff c.referrer_id ""))
      (ground (arith, eq_iff c.kind "LINK", eq_iff c.kind "IRL")) (ground arith)

candidate_valid_complete : {c : Option Candidate} → IsCandidate c → candidate_valid c ≡ true
unfolding candidate_valid
candidate_valid_complete nobody = refl
candidate_valid_complete (touch {c} r k t) =
    ground (arith, eq_iff c.referrer_id "", eq_iff c.kind "LINK", eq_iff c.kind "IRL")

gift_valid_sound : (g : Gift) → gift_valid g ≡ true → IsPayment g
unfolding gift_valid
gift_valid_sound g h = record {
  named = ground (arith, eq_iff g.id "");
  given_by = ground (arith, eq_iff g.donor_id "");
  positive = ground arith;
  dollars = ground (arith, eq_iff g.currency "USD");
  timed = ground arith;
  paced =
      ground
        (arith, eq_iff g.frequency "MONTHLY", eq_iff g.frequency "ONE_TIME", eq_iff g.period_id "");
  referred = candidate_valid_sound g.candidate (ground arith);
}

gift_valid_complete : (g : Gift) → IsPayment g → gift_valid g ≡ true
unfolding gift_valid
gift_valid_complete g h =
    let a = ne→== g.id "" h.named in
    let b = ne→== g.donor_id "" h.given_by in
    let c = (eq_iff g.currency "USD").1 h.dollars in
    let p : leb_ℤ g.amount (pos 0) ≡ false = let q = h.positive in ground arith in
    let t : is_zero g.paid_at ≡ false = let q = h.timed in ground arith in
    let d = candidate_valid_complete h.referred in
    elim h.paced [
      | inl m ↦ rw (a, b, c, p, t, d, ap (λ f. f == "MONTHLY") m, ap (λ f. f == "ONE_TIME") m)
      | inr (o, n) ↦ rw (
        a,
        b,
        c,
        p,
        t,
        d,
        ap (λ f. f == "MONTHLY") o,
        ap (λ f. f == "ONE_TIME") o,
        ap (λ i. i == "") n,
      )
    ]

All-sound : (gs : List Gift) → AllValid gift_valid gs → All IsPayment gs
All-sound [] h = tt
All-sound (g ∷ gs) h = (gift_valid_sound g h.0, All-sound gs h.1)

All-complete : (gs : List Gift) → All IsPayment gs → AllValid gift_valid gs
All-complete [] h = tt
All-complete (g ∷ gs) h = (gift_valid_complete g h.0, All-complete gs h.1)

-- `cleanGifts` returns a list exactly when every gift is a payment and every identifier stands
-- for one gift, that is, each gift equals the first one with its identifier.
pub clean_gifts_accepts :
    (gs : List Gift)
    → ((r : List Gift) × (clean_gifts gs ≡ ok r)) ↔ (All IsPayment gs × IsConsistent gift_id gs)
unfolding clean_gifts
clean_gifts_accepts gs =
    let both = dedupe_iff gift_id gift_eq gift_valid invalid gift_eq_iff gs in
    (
      λ found. let (v, c) = both.0 found in (All-sound gs v, c),
      λ (v, c). both.1 (All-complete gs v, c),
    )

-- A list that `cleanGifts` returns holds under each identifier the first gift of the input with
-- it, holds each identifier once and payments only, and is returned as it is when cleaned again.
pub clean_gifts_keeps :
    (gs : List Gift) {r : List Gift}
    → clean_gifts gs ≡ ok r
    → ((k : String) → by_id gift_id k r ≡ by_id gift_id k gs)
      × IsConsistent gift_id r
      × All IsPayment r
      × (clean_gifts r ≡ ok r)
unfolding clean_gifts
clean_gifts_keeps gs {r} h =
    let (v, c) = dedupe_clean gift_id gift_eq gift_valid invalid gift_eq_iff gs h in
    (
      dedupe-by_id gift_id gift_eq gift_valid invalid gift_eq_iff gs h,
      c,
      All-sound r v,
      dedupe_again gift_id gift_eq gift_valid invalid gift_eq_iff gs h,
    )

-- What holds of every gift holds of those that `cleanGifts` keeps.
pub All-clean_gifts :
    (P : Gift → Type 0) (gs : List Gift) {r : List Gift}
    → clean_gifts gs ≡ ok r
    → All P gs
    → All P r
unfolding clean_gifts
All-clean_gifts P gs h k = All-dedupe gift_id gift_eq gift_valid invalid gift_eq_iff P gs h k
