-- ===== src/Recognition/Relationships/Founding.antt =====
-- `FoundingQualifiedAt` finds the earliest payment that qualifies.
use impact_graph.Base.{
  zero, suc, not, ◌<◌, ◌≤◌, String, ◌≡◌, refl, ◌⊎◌, inl, inr, Bool, true, false, List, [], ◌∷◌,
  Bool-cases, eq_iff, arith, ok, All, Exists,
}
use impact_graph.Recognition.Facts.{Time, is_zero, Gift, zero_time, clean_gifts}
use impact_graph.Recognition.Facts.Clean.{IsPayment, clean_gifts_keeps}
use impact_graph.Recognition.Relationships.{
  founding_cutoff, founding_gift, first_founding, founding_qualified_at,
}

-- A gift of the donor that had been paid by the time, and before the cutoff.
pub record Qualifies (donor : String) (as_of : Time) (g : Gift) : Type 0 where
  pub given_by : g.donor_id ≡ donor
  pub in_time : g.paid_at ≤ as_of
  pub early : g.paid_at < founding_cutoff

-- What the loop finds from `first` on.
record Earliest (donor : String) (as_of first : Time) (gs : List Gift) (t : Time) : Type 0 where
  from_first : 0 < first → (0 < t) × (t ≤ first)
  least : All (λ g. Qualifies donor as_of g → (0 < t) × (t ≤ g.paid_at)) gs
  attained : (t ≡ first) ⊎ Exists (λ g. Qualifies donor as_of g × (g.paid_at ≡ t)) gs

founding_gift_sound :
    (donor : String) (as_of first : Time) (g : Gift)
    → founding_gift donor as_of first g ≡ true
    → Qualifies donor as_of g × ((first ≡ 0) ⊎ (g.paid_at < first))
unfolding founding_gift
founding_gift_sound donor as_of first g h = (
  record {
    given_by = ground (arith, eq_iff g.donor_id donor);
    in_time = ground arith;
    early = ground arith;
  },
  ground arith,
)

founding_gift_complete :
    (donor : String) (as_of first : Time) (g : Gift)
    → founding_gift donor as_of first g ≡ false
    → Qualifies donor as_of g
    → (0 < first) × (first ≤ g.paid_at)
unfolding founding_gift
founding_gift_complete donor as_of first g h q =
    let a = (eq_iff g.donor_id donor).1 q.given_by in
    let b = q.in_time in let c = q.early in ground arith

first_founding-Earliest :
    (donor : String) (as_of first : Time) (gs : List Gift)
    → All IsPayment gs
    → Earliest donor as_of first gs (first_founding donor as_of first gs)
unfolding first_founding
first_founding-Earliest donor as_of first [] v = record {
  from_first = λ h. (h, omega arith);
  least = tt;
  attained = inl refl;
}
first_founding-Earliest donor as_of first (g ∷ gs) v =
    elim (Bool-cases (founding_gift donor as_of first g)) [
      | inl hit ↦
          let later = first_founding-Earliest donor as_of g.paid_at gs v.1 in
          let (q, better) = founding_gift_sound donor as_of first g hit in
          let timed = v.0.timed in
          rw hit (record {
            from_first = λ h. ground (arith, later.from_first);
            least = (λ _. later.from_first timed, later.least);
            attained = elim later.attained [
              | inl same ↦ inr (inl (q, ground arith))
              | inr more ↦ inr (inr more)
            ];
          })
      | inr miss ↦
          let later = first_founding-Earliest donor as_of first gs v.1 in
          rw miss (record {
            from_first = later.from_first;
            least = (
              λ q.
                  let b = founding_gift_complete donor as_of first g miss q in
                  ground (arith, later.from_first),
              later.least,
            );
            attained = elim later.attained [ inl same ↦ inl same | inr more ↦ inr (inr more) ];
          })
    ]

-- What the answer `(first, ok)` says of the gifts.
abbrev pub FoundingAnswer : String → Time → List Gift → Time → Bool → Type 0
FoundingAnswer donor as_of gs t true =
    Exists (λ g. Qualifies donor as_of g × (g.paid_at ≡ t)) gs
    × All (λ g. Qualifies donor as_of g → t ≤ g.paid_at) gs
FoundingAnswer donor as_of gs t false = All (λ g. ¬ Qualifies donor as_of g) gs

founding_answer :
    (donor : String) (as_of t : Time) (gs : List Gift)
    → Earliest donor as_of 0 gs t
    → FoundingAnswer donor as_of gs t (not (is_zero t))
founding_answer donor as_of zero gs h = none_qualifies gs h.least
  where
    none_qualifies :
        (xs : List Gift)
        → All (λ g. Qualifies donor as_of g → (0 < 0) × (0 ≤ g.paid_at)) xs
        → All (λ g. ¬ Qualifies donor as_of g) xs
    none_qualifies [] k = tt
    none_qualifies (x ∷ xs) k = ((λ q. absurd (omega (arith, k.0 q))), none_qualifies xs k.1)
founding_answer donor as_of (suc t) gs h =
    let timed : is_zero (suc t) ≡ false = ground arith in
    rw timed
      (elim h.attained [ inl same ↦ absurd (omega arith) | inr found ↦ found ], bounds gs h.least)
  where
    bounds :
        (xs : List Gift)
        → All (λ g. Qualifies donor as_of g → (0 < suc t) × (suc t ≤ g.paid_at)) xs
        → All (λ g. Qualifies donor as_of g → suc t ≤ g.paid_at) xs
    bounds [] k = tt
    bounds (x ∷ xs) k = ((λ q. (k.0 q).1), bounds xs k.1)

-- With a time to look at and acceptable gifts, `FoundingQualifiedAt` returns the payment time of the
-- donor's earliest gift that was paid by then and before the cutoff, or `false` if there is none.
pub founding_qualified_at_earliest :
    (input : List Gift) (donor : String) (as_of : Time) {gifts : List Gift}
    → 0 < as_of
    → clean_gifts input ≡ ok gifts
    → (t : Time) × (q : Bool) × (founding_qualified_at input donor as_of ≡ ok (t, q))
      × FoundingAnswer donor as_of gifts t q
unfolding founding_qualified_at
founding_qualified_at_earliest input donor as_of {gifts} h c =
    let timed : is_zero as_of ≡ false = ground arith in
    let payments = (clean_gifts_keeps input c).2 in
    let t = first_founding donor as_of zero_time gifts in
    (
      t,
      not (is_zero t),
      rw (timed, c) refl,
      founding_answer donor as_of t gifts
          (first_founding-Earliest donor as_of zero_time gifts payments),
    )
