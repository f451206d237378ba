-- ===== src/Recognition/Facts.antt =====
-- The financial facts that recognition reads, and `cleanGifts`.
--
-- A time is the number of nanoseconds since the zero time, 0001-01-01T00:00:00Z, so `IsZero` is a
-- test for 0, and `utc`, which drops the zone and the monotonic reading, changes nothing.
pub mod Clean
use impact_graph.Base.{
  ℕ, ◌*◌, ◌-◌, String, Bool, true, false, not, ◌&&◌, ◌||◌, Option, none, some, List, ltb, leb,
  nat_eq, ◌==◌, if◌then◌else◌, ℤ, pos, leb_ℤ, eqb_ℤ, Result,
}
use impact_graph.Base.Dedupe.{dedupe}

-- time.Time
abbrev pub Time : Type 0
Time = ℕ

abbrev pub zero_time : Time
zero_time = 0

-- time.Time.IsZero, Before and After
abbrev pub is_zero : Time → Bool
is_zero t = nat_eq t zero_time

abbrev pub before : Time → Time → Bool
before t u = ltb t u

abbrev pub after : Time → Time → Bool
after t u = ltb u t

-- time.Hour and the program's day, in nanoseconds
abbrev pub hour : ℕ
hour = 3600000000000

abbrev pub day : ℕ
day = 24 * hour

abbrev pub grace : ℕ
grace = 7 * day

-- ErrInvalid and ErrIncomplete
pub data Failure : Type 0 where
  invalid incomplete : Failure

pub record Candidate : Type 0 where
  pub referrer_id : String
  pub kind : String
  pub expires_at : Time

pub record Gift : Type 0 where
  pub id : String
  pub donor_id : String
  pub amount : ℤ
  pub paid_at : Time
  pub frequency : String
  pub candidate : Option Candidate
  pub period_id : String
  pub currency : String

pub record Refund : Type 0 where
  pub id : String
  pub gift_id : String
  pub amount : ℤ
  pub status : String
  pub updated_at : Time
  pub currency : String

pub record Period : Type 0 where
  pub id : String
  pub donor_id : String
  pub due_at : Time
  pub ends_at : Time
  pub status : String

pub record Relationship : Type 0 where
  pub donor_id : String
  pub first_gift_id : String
  pub referrer_id : Option String
  pub kind : Option String

-- The streak counts are never negative.
pub record Streak : Type 0 where
  pub current : ℕ
  pub best : ℕ
  pub at_risk : Bool
  pub grace_ends_at : Option Time
  pub since : Option Time

candidate_valid : Option Candidate → Bool
candidate_valid none = true
candidate_valid (some c) =
    not (c.referrer_id == "" || not (c.kind == "LINK" || c.kind == "IRL") || is_zero c.expires_at)

-- The tests at the head of the loop of `cleanGifts`.
unfoldable pub gift_valid : Gift → Bool
unfolding candidate_valid
gift_valid g =
    not (
      g.id == ""
      || g.donor_id == ""
      || leb_ℤ g.amount (pos 0)
      || not (g.currency == "USD")
      || is_zero g.paid_at
      || not (g.frequency == "MONTHLY" || g.frequency == "ONE_TIME")
      || g.frequency == "ONE_TIME" && not (g.period_id == ""))
    && candidate_valid g.candidate

candidate_eq : Option Candidate → Option Candidate → Bool
candidate_eq none none = true
candidate_eq (some c) (some d) =
    c.referrer_id == d.referrer_id && c.kind == d.kind && nat_eq c.expires_at d.expires_at
candidate_eq _ _ = false

-- reflect.DeepEqual on two gifts
unfoldable pub gift_eq : Gift → Gift → Bool
unfolding candidate_eq
gift_eq g h =
    g.id == h.id
    && g.donor_id == h.donor_id
    && eqb_ℤ g.amount h.amount
    && nat_eq g.paid_at h.paid_at
    && g.frequency == h.frequency
    && candidate_eq g.candidate h.candidate
    && g.period_id == h.period_id
    && g.currency == h.currency

-- cleanGifts
unfoldable pub clean_gifts : List Gift → Result Failure (List Gift)
clean_gifts = dedupe (λ g. g.id) gift_eq gift_valid invalid

-- `byID` of `NetGifts`, and any other look-up of a gift by its identifier
abbrev pub gift_id : Gift → String
gift_id g = g.id
