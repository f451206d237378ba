-- ===== src/Recognition/Relationships/First.antt =====
-- A donor's relationship is made by the earliest gift, of which ties go to the smaller identifier.
use impact_graph.Base.{
  String, ◌≡◌, refl, sym, ◌∙◌, ap, Bool, true, false, ◌<◌, ◌↔◌, ◌≢◌, ◌&&◌, ◌||◌, not, none, some,
  List, [], ◌∷◌, ◌==◌, if◌then◌else◌, Bool-cases, Option-cases, inl, inr, eq_iff, some_inj, ne→==,
  arith, ok, Dict, lookup, insert, contains, lookup-insert, find,
}
use mathlib.Core.Option
use impact_graph.Base.Sort.{TotalOrder, sort, least, find-sort}
use impact_graph.Base.TextOrder.{text_order}
use impact_graph.Recognition.Facts.{
  Time, is_zero, after, Gift, Candidate, Relationship, clean_gifts,
}
use impact_graph.Recognition.Relationships.{gift_le, relationship_of, relate, relationships}

gift_le_trans : (a b c : Gift) → gift_le a b ≡ true → gift_le b c ≡ true → gift_le a c ≡ true
unfolding gift_le
gift_le_trans a b c h k = ground (arith, text_order.trans a.id b.id c.id)

gift_le_total : (a b : Gift) → gift_le a b ≡ false → gift_le b a ≡ true
unfolding gift_le
gift_le_total a b h = ground (arith, text_order.total a.id b.id)

gift_order : TotalOrder gift_le
gift_order = record { total = gift_le_total; trans = gift_le_trans }

-- The gifts of a donor that were paid by a time.
abbrev pub gives : String → Time → Gift → Bool
gives donor as_of g = g.donor_id == donor && not (after g.paid_at as_of)

-- What the loop finds for a donor: the first of the donor's gifts that it meets.
lookup-relate :
    (as_of : Time) (donor : String) (gs : List Gift) (result : Dict Relationship)
    → lookup donor (relate as_of gs result) ≡ (elim (lookup donor result) [
      | none ↦ Option.map relationship_of (find (gives donor as_of) gs)
      | some r ↦ some r
    ])
unfolding relate find
lookup-relate as_of donor [] result = ground arith
lookup-relate as_of donor (g ∷ gs) result =
    lookup-relate as_of donor gs (
      if contains g.donor_id result || after g.paid_at as_of
      then result
      else insert g.donor_id (relationship_of g) result)
    ∙ elim (Bool-cases (g.donor_id == donor)) [
      | inl same ↦
          let e : lookup g.donor_id result ≡ lookup donor result =
            ap (λ d. lookup d result) ((eq_iff g.donor_id donor).0 same) in
          ground (arith, e, lookup-insert g.donor_id donor (relationship_of g) result)
      | inr other ↦ ground (arith, lookup-insert g.donor_id donor (relationship_of g) result)
    ]

-- With a time to look at and acceptable gifts, `Relationships` returns for each donor the
-- relationship of the donor's least gift paid by then, by payment time and identifier, and
-- nothing for a donor without one.
pub relationships_first :
    (input : List Gift) (as_of : Time) {gifts : List Gift}
    → 0 < as_of
    → clean_gifts input ≡ ok gifts
    → (found : Dict Relationship) × (relationships input as_of ≡ ok found)
      × ((donor : String)
          → lookup donor found
            ≡ Option.map relationship_of (least gift_le (gives donor as_of) gifts))
unfolding relationships lookup
relationships_first input as_of {gifts} h c =
    let timed : is_zero as_of ≡ false = ground arith in
    (
      relate as_of (sort gift_le gifts) [],
      rw (timed, c) refl,
      λ donor.
          lookup-relate as_of donor (sort gift_le gifts) []
          ∙ ap (Option.map relationship_of) (find-sort gift_order (gives donor as_of) gifts),
    )

-- A relationship names a referrer, and then also the kind, exactly when its gift carried a
-- candidate of another donor whose window was open when the gift was paid.
pub relationship_of_iff :
    (g : Gift) (who : String)
    → ((relationship_of g).referrer_id ≡ some who) ↔ (
        (c : Candidate) × (g.candidate ≡ some c)
        × (c.referrer_id ≡ who)
        × (c.referrer_id ≢ g.donor_id)
        × (g.paid_at < c.expires_at)
        × ((relationship_of g).kind ≡ some c.kind))
unfolding relationship_of
relationship_of_iff g who = elim (Option-cases g.candidate) [
  | inl nobody ↦ (λ h. absurd (ground arith), λ h. absurd (ground arith))
  | inr (c, e) ↦ (
    λ h. (
      c,
      e,
      ground arith,
      ground (arith, eq_iff c.referrer_id g.donor_id),
      ground arith,
      ground arith,
    ),
    λ h.
        let same : h.0 ≡ c = some_inj.0 (sym h.1 ∙ e) in
        let who_c : c.referrer_id ≡ who = ap (λ (x : Candidate). x.referrer_id) (sym same) ∙ h.2 in
        let other =
          ne→== c.referrer_id g.donor_id
            (λ q. h.3 (ap (λ (x : Candidate). x.referrer_id) same ∙ q)) in
        let early : g.paid_at < c.expires_at = rw (← same) h.4 in ground (arith, other, who_c),
  )
]
