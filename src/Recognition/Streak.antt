-- ===== src/Recognition/Streak.antt =====
-- `GivingStreak`: the run of consecutive paid monthly periods.
pub mod Count
pub mod Runs
pub mod Giving
pub mod Periods
pub mod Steady
use impact_graph.Base.{
  ℕ, ◌+◌, ◌-◌, ◌*◌, max, String, Bool, true, false, not, ◌&&◌, ◌||◌, Option, none, some, List, [],
  ◌∷◌, ◌++◌, ltb, leb, nat_eq, ◌==◌, if◌then◌else◌, keep, length, ℤ, pos, pos_part, ltb_ℤ, Result,
  ok, err, ◌>>=◌, ◌>>◌, ensure, fold_ok, Dict, lookup, insert, contains, get_or,
}
use impact_graph.Base.Dedupe.{dedupe}
use impact_graph.Base.Sort.{sort}
use impact_graph.Recognition.Facts.{
  Time, zero_time, is_zero, before, after, day, grace, Failure, invalid, incomplete, Gift, Refund,
  Period, Streak, clean_gifts,
}
use impact_graph.Recognition.Net.{net_gifts}

-- The tests at the head of the loop of `donorPeriods`. A period that ends before it is due has no
-- duration here and a negative one in the source: both are below the 27 days.
unfoldable pub period_valid : Period → Bool
period_valid p =
    let duration = p.ends_at - p.due_at in
    not (
      p.id == ""
      || p.donor_id == ""
      || is_zero p.due_at
      || is_zero p.ends_at
      || ltb duration (27 * day)
      || ltb (32 * day) duration
      || not (p.status == "EXPECTED" || p.status == "FAILED"))

-- `old == p` on two periods
unfoldable pub period_eq : Period → Period → Bool
period_eq p q =
    p.id == q.id
    && p.donor_id == q.donor_id
    && nat_eq p.due_at q.due_at
    && nat_eq p.ends_at q.ends_at
    && p.status == q.status

abbrev pub period_id : Period → String
period_id p = p.id

abbrev pub due_le : Period → Period → Bool
due_le p q = leb p.due_at q.due_at

-- The loop that compares each period with the one before.
unfoldable pub disjoint : List Period → Bool
disjoint [] = true
disjoint (p ∷ []) = true
disjoint (p ∷ q ∷ ps) = not (after p.ends_at q.due_at) && disjoint (q ∷ ps)

-- donorPeriods
unfoldable pub donor_periods : List Period → String → Result Failure (List Period)
donor_periods input donor = do
  all ← dedupe period_id period_eq period_valid invalid input
  let periods = sort due_le (keep (λ p. p.donor_id == donor) all)
  ensure (disjoint periods) invalid
  ok periods

known_period : List Period → String → Bool
known_period [] id = false
known_period (p ∷ ps) id = p.id == id || known_period ps id

-- The body of the loop of `periodPayments`.
payment_step :
    Dict ℤ → List Period → String → Dict (List Gift) → Gift → Result Failure (Dict (List Gift))
unfolding known_period
payment_step net periods donor result g =
    if not (g.donor_id == donor) || not (g.frequency == "MONTHLY") || not (contains g.id net)
    then ok result
    else if known_period periods g.period_id
    then ok (insert g.period_id (get_or [] g.period_id result ++ g ∷ []) result)
    else err incomplete

-- periodPayments
unfoldable pub period_payments :
    List Gift → Dict ℤ → List Period → String → Result Failure (Dict (List Gift))
unfolding payment_step
period_payments gifts net periods donor = fold_ok (payment_step net periods donor) [] gifts

-- renewalBoundaries; the map of times is the list of its keys
unfoldable pub renewal_boundaries : List Time → Result Failure (List Time)
renewal_boundaries [] = ok []
renewal_boundaries (t ∷ ts) =
    if is_zero t then err invalid else (do stopped ← renewal_boundaries ts; ok (t ∷ stopped))

-- `stopped[t]`
unfoldable pub stops_at : List Time → Time → Bool
stops_at [] t = false
stops_at (u ∷ us) t = nat_eq u t || stops_at us t

-- The payment that counts for a period: the earliest that is not refunded in full.
unfoldable pub earliest_paid : Dict ℤ → List Gift → Time → Time
earliest_paid net [] paid = paid
earliest_paid net (g ∷ gs) paid = earliest_paid net gs (
    if ltb_ℤ (pos 0) (get_or (pos 0) g.id net) && (is_zero paid || before g.paid_at paid)
    then g.paid_at
    else paid)

-- The variables of the loop of `countStreak`.
pub record Run : Type 0 where
  pub result : Streak
  pub last : Time
  pub last_paid : Time

abbrev pub no_streak : Streak
no_streak = record { current = 0; best = 0; at_risk = false; grace_ends_at = none; since = none }

abbrev pub first_run : Run
first_run = record { result = no_streak; last = zero_time; last_paid = zero_time }

-- A stop or a gap before the period starts a new run.
unfoldable pub resume : List Time → Time → Period → Streak → Streak
resume stopped last p s =
    if stops_at stopped last || not (nat_eq last p.due_at)
    then record s { current = 0; since = none }
    else s

-- The paid period's case of the switch.
unfoldable pub extend : Period → Time → Time → Streak → Streak
extend p paid last_paid s =
    let late =
      not (before paid (p.due_at + grace)) || not (is_zero last_paid) && before paid last_paid in
    let counted = if late then 0 else s.current in
    record s {
      current = counted + 1;
      best = max s.best (counted + 1);
      since = if nat_eq counted 0 then some p.due_at else s.since;
    }

-- The switch of `countStreak`: the streak and the last payment after a period with these payments.
unfoldable pub observe : Dict ℤ → Time → Time → Period → List Gift → Streak → Streak × Time
unfolding extend
observe net as_of last_paid p payments s =
    let paid = earliest_paid net payments zero_time in
    let deadline = p.due_at + grace in
    if not (is_zero paid)
    then (extend p paid last_paid s, paid)
    else if ltb 0 (length payments) || not (before as_of deadline)
    then (record s { current = 0; since = none }, zero_time)
    else if ltb 0 s.current
    then (record s { at_risk = true; grace_ends_at = some deadline }, last_paid)
    else (s, last_paid)

-- `result.AtRisk = false` and `result.GraceEndsAt = nil`
abbrev pub calm : Streak → Streak
calm s = record s { at_risk = false; grace_ends_at = none }

-- The body of the loop of `countStreak`, on the payments of the period.
unfoldable pub period_step : Dict ℤ → Time → List Time → Run → Period → List Gift → Run
unfolding resume observe
period_step net as_of stopped run p payments =
    let (s, paid) =
      observe net as_of run.last_paid p payments (calm (resume stopped run.last p run.result)) in
    record { result = s; last = p.ends_at; last_paid = paid }

count_from : Dict (List Gift) → Dict ℤ → Time → List Time → Run → List Period → Run
count_from payments net as_of stopped run [] = run
count_from payments net as_of stopped run (p ∷ ps) =
    count_from payments net as_of stopped
      (period_step net as_of stopped run p (get_or [] p.id payments)) ps

-- countStreak
unfoldable pub count_streak : List Period → Dict (List Gift) → Dict ℤ → Time → List Time → Streak
unfolding count_from period_step
count_streak elapsed payments net as_of stopped =
    (count_from payments net as_of stopped first_run elapsed).result

-- `elapsed[len(elapsed)-1]`
abbrev pub last_of {ℓ} : {A : Type ℓ} → A → List A → A
last_of p [] = p
last_of p (q ∷ ps) = last_of q ps

-- The answer of `GivingStreak` once every fact has been read and some period has come due.
unfoldable pub streak_at :
    Period → List Period → Dict (List Gift) → Dict ℤ → Time → ℕ → List Time → Result Failure Streak
streak_at p ps payments net as_of previous stopped =
    let next = (last_of p ps).ends_at in
    let ended = stops_at stopped next in
    let renewal_due = not (after next as_of) in
    let counted = count_streak (p ∷ ps) payments net as_of stopped in
    let result = record counted { best = max previous counted.best } in
    if renewal_due && not ended && not (before as_of (next + grace))
    then err incomplete
    else if renewal_due && ended
    then ok (record result { current = 0; at_risk = false; grace_ends_at = none; since = none })
    else ok result

streak_of : List Period → Dict (List Gift) → Dict ℤ → Time → ℕ → List Time → Result Failure Streak
streak_of [] payments net as_of previous stopped = ok (record no_streak { best = previous })
streak_of (p ∷ ps) payments net as_of previous stopped =
    streak_at p ps payments net as_of previous stopped

-- GivingStreak
unfoldable pub giving_streak :
    List Gift → List Refund → List Period → String → Time → ℤ → List Time → Result Failure Streak
unfolding streak_of
giving_streak input refunds input_periods donor as_of previous_best stops = do
  ensure (not (ltb_ℤ previous_best (pos 0))) invalid
  gifts ← clean_gifts input
  net ← net_gifts gifts refunds as_of
  periods ← donor_periods input_periods donor
  paid ← period_payments gifts net periods donor
  stopped ← renewal_boundaries stops
  let elapsed = keep (λ p. not (after p.due_at as_of)) periods
  streak_of elapsed paid net as_of (pos_part previous_best) stopped
