-- ===== src/Financial.antt =====
-- What a projection takes from the recognition package: apps/donor-api/internal/store/financial.go.
--
-- The reader of a UUID's text is a database driver's, and the calendars of a zone and of New York are Go's:
-- parameters.
pub mod Refresh
pub mod Boundaries
pub mod Years
pub mod Unchanged
pub mod Total
pub mod Award
use impact_graph.Base.{
  ℕ, ◌+◌, ◌*◌, ◌%◌, ◌^◌, String, Bool, true, false, not, ◌&&◌, Option, none, some, List, [], ◌∷◌,
  ◌++◌, ltb, leb, ◌==◌, if◌then◌else◌, any, keep, map, Result, err, ok, ◌>>=◌, Dict, lookup, insert,
  ℤ, pos, ◌+ℤ◌, ◌-ℤ◌, ltb_ℤ,
}
use impact_graph.Recognition.Facts.{
  Time, Failure, Gift, Refund, Period, Relationship, Streak, after, before, day, grace, zero_time,
}
use impact_graph.Recognition.Net.{net_gifts}
use impact_graph.Recognition.Streak.{no_streak, giving_streak}
use impact_graph.Recognition.Ladder.{ladder_with_milestones}
use impact_graph.Recognition.Relationships.{relationships, founding_qualified_at}
use Failure.{invalid}

-- The loop of `latestMonthlyMinor`, with the latest time and its amount so far.
latest_monthly_from : Time → ℤ → List Gift → ℤ
latest_monthly_from latest amount [] = amount
latest_monthly_from latest amount (g ∷ gs) =
    let newer = g.frequency == "MONTHLY" && after g.paid_at latest in
    latest_monthly_from (if newer then g.paid_at else latest) (if newer then g.amount else amount)
      gs

-- latestMonthlyMinor
unfoldable pub latest_monthly_minor : List Gift → ℤ
unfolding latest_monthly_from
latest_monthly_minor gifts = latest_monthly_from zero_time (pos 0) gifts

-- A row of RefundObservations
pub record Observation : Type 0 where
  pub refund_id : String
  pub status : String
  pub observed_at : Time

-- The map of `refundsAsOf`: a later observation of a refund replaces an earlier one.
latest_observations : List Observation → Dict Observation → Dict Observation
latest_observations [] m = m
latest_observations (o ∷ os) m = latest_observations os (insert o.refund_id o m)

-- The state of one refund, if it is kept.
as_of_state : Dict Observation → Time → Refund → Option Refund
as_of_state latest as_of r =
    if after r.updated_at as_of
    then elim (lookup r.id latest) [
      | none ↦ none
      | some o ↦ some (record r { status = o.status; updated_at = o.observed_at })
    ]
    else some r

-- `result = append(result, r)`, if the refund is kept
put : Option Refund → List Refund → List Refund
put none rs = rs
put (some r) rs = r ∷ rs

-- refundsAsOf: the refunds, and the later updates
unfoldable pub refunds_from : Dict Observation → Time → List Refund → List Refund × List Time
unfolding as_of_state put
refunds_from latest as_of [] = ([], [])
refunds_from latest as_of (r ∷ rs) =
    let (kept, later) = refunds_from latest as_of rs in
    (
      put (as_of_state latest as_of r) kept,
      if after r.updated_at as_of then r.updated_at ∷ later else later,
    )

unfoldable pub refunds_as_of : List Refund → List Observation → Time → List Refund × List Time
unfolding latest_observations
refunds_as_of current observations as_of =
    refunds_from (latest_observations observations []) as_of current

-- minRefreshInterval, and the seconds to maxRefreshInterval
abbrev pub min_refresh_interval : ℕ
min_refresh_interval = 25 * day

abbrev pub refresh_spread : ℕ
refresh_spread = 10 * 24 * 3600

-- refreshCap: the last eight bytes of the identifier choose the second; a second is 1000000000 nanoseconds.
unfoldable pub refresh_cap : ℕ → ℕ
refresh_cap donor = min_refresh_interval + donor % 2 ^ 64 % refresh_spread * 1000000000

-- math.MaxInt64
abbrev pub max_int64 : ℤ
max_int64 = pos 9223372036854775807

unfoldable pub sum_amounts : ℤ → Dict ℤ → Result Failure ℤ
sum_amounts total [] = ok total
sum_amounts total ((id, amount) ∷ more) =
    let rest = sum_amounts (total +ℤ amount) more in
    if ltb_ℤ (max_int64 -ℤ total) amount then err invalid else rest

-- netMinor
unfoldable pub net_minor : List Gift → List Refund → Time → Result Failure ℤ
net_minor gifts refunds now = net_gifts gifts refunds now >>= λ net. sum_amounts (pos 0) net

-- refundsForGifts
unfoldable pub refunds_for_gifts : List Refund → List Gift → List Refund
refunds_for_gifts refunds gifts = keep (λ r. any (λ g. g.id == r.gift_id) gifts) refunds

-- The boundaries of the periods, each with its grace.
unfoldable pub period_boundaries : List Period → List Time
period_boundaries [] = []
period_boundaries (p ∷ ps) = p.due_at ∷ p.ends_at ∷ (p.ends_at + grace) ∷ period_boundaries ps

unfoldable pub one_if : Option Time → List Time
one_if none = []
one_if (some t) = t ∷ []

-- The loop of `nextRefresh`
unfoldable pub earliest_after : Time → Time → List Time → Time
earliest_after now next [] = next
earliest_after now next (b ∷ bs) =
    earliest_after now (if after b now && before b next then b else next) bs

-- The gifts that count for the streak after a reset.
unfoldable pub streak_gifts : Option Time → List Gift → List Gift
streak_gifts none gifts = gifts
streak_gifts (some reset) gifts = keep (λ g. after g.paid_at reset) gifts

-- The streak of `projectFacts`
unfoldable pub project_streak :
    List Refund
    → List Observation
    → Option Time
    → List Gift
    → List Period
    → String
    → ℤ
    → List Time
    → Time
    → Result Failure Streak
project_streak current observations reset gifts periods id best stops now =
    let kept = streak_gifts reset gifts in
    giving_streak kept (refunds_for_gifts (refunds_as_of current observations now).0 kept) periods
      id now best stops

-- `civil_day` numbers the date of an instant in a zone, and `midnight` is the start of a date.
module _ {Zone : Type 0} (civil_day : Zone → Time → ℤ) (midnight : Zone → ℤ → Time) where
  -- Reaches
  unfoldable pub reaches : Time → ℕ → Zone → Time
  reaches since days zone = midnight zone (civil_day zone since +ℤ pos days)

  -- The moment of the next milestone, on the milestones `m ∷ ms`.
  unfoldable pub milestone_boundary : Option Time → Time → Zone → ℕ → List ℕ → List Time
  milestone_boundary none now zone m ms = []
  milestone_boundary (some since) now zone m ms =
      let run = record no_streak { since = some since } in
      reaches since (ladder_with_milestones civil_day run now zone m ms).next_milestone zone ∷ []

-- `year` is the year of an instant in New York, and `new_year` the start of a year there.
module _ (year : Time → ℕ) (new_year : ℕ → Time) where
  -- The end of the year, for a donor who has given.
  unfoldable pub year_boundary : List Gift → Time → List Time
  year_boundary [] now = []
  year_boundary (g ∷ gs) now = new_year (year now + 1) ∷ []

module _ {Zone : Type 0} (civil_day : Zone → Time → ℤ) (midnight : Zone → ℤ → Time)
    (year : Time → ℕ) (new_year : ℕ → Time) where
  -- nextRefresh, of which `refunds` are the boundaries of the refunds and `latest` the default
  unfoldable pub next_refresh :
      Time
      → Time
      → List Time
      → List Time
      → Option Time
      → Zone
      → ℕ
      → List ℕ
      → List Period
      → List Gift
      → Option Time
      → Time
  unfolding period_boundaries
  next_refresh now latest refunds stops since zone m ms periods gifts grace_ends =
      earliest_after now latest (
        refunds
        ++ stops
        ++ milestone_boundary civil_day midnight since now zone m ms
        ++ period_boundaries periods
        ++ map (λ g. g.paid_at) gifts
        ++ one_if grace_ends
        ++ year_boundary year new_year gifts now)

-- The columns of a projection that `projectConversion` writes.
pub record Conversion : Type 0 where
  pub first_gift_id : Option String
  pub referrer_id : Option ℕ
  pub referral_kind : Option String
  pub founding_awarded_at : Option Time

pub data ConversionFailure : Type 0 where
  facts : Failure → ConversionFailure
  no_uuid : ConversionFailure

abbrev pub from_facts {ℓ} : {A : Type ℓ} → Result Failure A → Result ConversionFailure A
from_facts (err e) = err (facts e)
from_facts (ok a) = ok a

-- The founding award of a donor who has none.
unfoldable pub founding_award : Time × Bool → Bool → Time → Option Time
founding_award (at, qualified) claimed now =
    if qualified then some at else if claimed then some now else none

unfoldable pub award_founding :
    Option Time
    → Conversion
    → List Gift
    → String
    → Bool
    → Time
    → Result ConversionFailure Conversion
award_founding (some t) out gifts id claimed now = ok out
award_founding none out gifts id claimed now =
    from_facts (founding_qualified_at gifts id now) >>= λ found.
    ok (record out { founding_awarded_at = founding_award found claimed now })

module _ (scan_uuid : String → Option ℕ) where
  -- The columns that a relationship fills.
  unfoldable pub attribute : Option Relationship → Conversion → Result ConversionFailure Conversion
  attribute none out =
      ok (record out { first_gift_id = none; referrer_id = none; referral_kind = none })
  attribute (some r) out =
      let first = record out {
        first_gift_id = some r.first_gift_id;
        referrer_id = none;
        referral_kind = none;
      } in
      elim r.referrer_id [
        | none ↦ ok first
        | some written ↦ elim (scan_uuid written) [
          | none ↦ err no_uuid
          | some id ↦ ok (record first { referrer_id = some id; referral_kind = r.kind })
        ]
      ]

  -- projectConversion
  unfoldable pub project_conversion :
      Conversion → List Gift → String → Bool → Time → Result ConversionFailure Conversion
  project_conversion out gifts id claimed now = do
    relations ← from_facts (relationships gifts now)
    attributed ← attribute (lookup id relations) out
    award_founding out.founding_awarded_at attributed gifts id claimed now
