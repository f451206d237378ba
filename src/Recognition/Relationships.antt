-- ===== src/Recognition/Relationships.antt =====
-- `Relationships` and `FoundingQualifiedAt`: each donor's first gift, and what it converted.
pub mod First
pub mod Founding
use Prim.Native.Nat.{Ordering, compare}
use impact_graph.Base.{
  ◌*◌, String, Bool, true, false, not, ◌&&◌, ◌||◌, Option, none, some, List, [], ◌∷◌, ◌==◌,
  if◌then◌else◌, Result, ok, err, ◌>>=◌, Dict, insert, contains,
}
use impact_graph.Base.Sort.{sort}
use impact_graph.Base.TextOrder.{text_le}
use impact_graph.Recognition.Facts.{
  Time, zero_time, is_zero, before, after, Failure, invalid, Candidate, Gift, Relationship,
  clean_gifts,
}

-- The order of the sort: by payment time, then by identifier.
unfoldable pub gift_le : Gift → Gift → Bool
gift_le a b = elim (compare a.paid_at b.paid_at) [
  | Ordering.lt ↦ true
  | Ordering.eq ↦ text_le a.id b.id
  | Ordering.gt ↦ false
]

-- Whether the candidate's window was open for another donor's referral.
converts : Gift → Candidate → Bool
converts g c = not (c.referrer_id == g.donor_id) && before g.paid_at c.expires_at

-- The relationship that a donor's first gift makes.
unfoldable pub relationship_of : Gift → Relationship
unfolding converts
relationship_of g = elim g.candidate [
  | none ↦ record { donor_id = g.donor_id; first_gift_id = g.id; referrer_id = none; kind = none }
  | some c ↦
      if converts g c
      then record {
        donor_id = g.donor_id;
        first_gift_id = g.id;
        referrer_id = some c.referrer_id;
        kind = some c.kind;
      }
      else record { donor_id = g.donor_id; first_gift_id = g.id; referrer_id = none; kind = none }
]

-- The loop over the sorted gifts.
relate : Time → List Gift → Dict Relationship → Dict Relationship
unfolding relationship_of
relate as_of [] result = result
relate as_of (g ∷ gs) result = relate as_of gs (
    if contains g.donor_id result || after g.paid_at as_of
    then result
    else insert g.donor_id (relationship_of g) result)

-- Relationships
unfoldable pub relationships : List Gift → Time → Result Failure (Dict Relationship)
unfolding relate gift_le
relationships input as_of =
    if is_zero as_of
    then err invalid
    else do gifts ← clean_gifts input; ok (relate as_of (sort gift_le gifts) [])

-- FoundingCutoff: 2027-01-01T00:00:00 in New York, five hours behind UTC, in nanoseconds.
abbrev pub founding_cutoff : Time
founding_cutoff = 63934376400 * 1000000000

-- Whether a gift comes before the first one found so far, and counts at all.
founding_gift : String → Time → Time → Gift → Bool
founding_gift donor as_of first g =
    g.donor_id == donor
    && not (after g.paid_at as_of)
    && before g.paid_at founding_cutoff
    && (is_zero first || before g.paid_at first)

-- The loop of `FoundingQualifiedAt`.
first_founding : String → Time → Time → List Gift → Time
unfolding founding_gift
first_founding donor as_of first [] = first
first_founding donor as_of first (g ∷ gs) =
    first_founding donor as_of (if founding_gift donor as_of first g then g.paid_at else first) gs

-- FoundingQualifiedAt
unfoldable pub founding_qualified_at : List Gift → String → Time → Result Failure (Time × Bool)
unfolding first_founding
founding_qualified_at input donor as_of = if is_zero as_of then err invalid else do
  gifts ← clean_gifts input
  let first = first_founding donor as_of zero_time gifts
  ok (first, not (is_zero first))
