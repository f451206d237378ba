-- ===== src/Reconcile/Listing/Terminates.antt =====
-- When `listSplitting` comes to an end.
use impact_graph.Base.{
  ℕ, zero, suc, ◌+◌, ◌-◌, ◌*◌, ◌/◌, ◌^◌, ◌≤◌, ◌<◌, ◌≡◌, refl, ◌≢◌, inl, inr, true, List, ◌++◌,
  Result, ok, err, ◌>>=◌, arith, ltb, Bool-cases,
}
use native.Mathlib.Numerals.{unary_clauses}
use impact_graph.Recognition.Facts.{Time}
use impact_graph.Payments.Facts.{second}
use impact_graph.Reconcile.Listing.{
  ListFailure, page_cap, unfinished, middle, list_splitting, list_by_created, ListFailure-cases,
}

doubled : (bound n : ℕ) → bound * 2 ^ suc n ≡ 2 * (bound * 2 ^ n)
doubled bound n = simp unary_clauses (grind arith)

module _ {Object : Type 0} (list : Time → Time → Result ListFailure (List Object)) where
  -- The result of a chain that cannot run out of fuel.
  joined :
      (left right : Result ListFailure (List Object))
      → left ≢ err unfinished
      → right ≢ err unfinished
      → (left >>= λ a. right >>= λ b. ok (a ++ b)) ≢ err unfinished
  joined (ok a) (ok b) h k = λ e. absurd (ground arith)
  joined (ok a) (err f) h k = k
  joined (err f) right h k = h

  -- One call, with what follows it where it meets the cap.
  after_call :
      (fuel : ℕ) (start end : Time)
      → list start end ≢ err unfinished
      → (list start end ≡ err page_cap
          → (list_splitting list fuel start (middle start end - second) >>= λ left.
              list_splitting list fuel (middle start end) end >>= λ right. ok (left ++ right))
            ≢ err unfinished)
      → list_splitting list (suc fuel) start end ≢ err unfinished
  unfolding list_splitting
  after_call fuel start end own halves = elim (ListFailure-cases (list start end)) [
    | inl (ys, e) ↦ rw (list_splitting, e) (λ h. absurd (ground arith))
    | inr (inr (inl e)) ↦ rw (list_splitting, e) (λ h. absurd (ground arith))
    | inr (inr (inr e)) ↦ absurd (own e)
    | inr (inl e) ↦ elim (Bool-cases (ltb start end)) [
      | inr closed ↦ rw (list_splitting, e, closed) (λ h. absurd (ground arith))
      | inl open_range ↦ rw (list_splitting, e, open_range) (halves e)
    ]
  ]

  -- If a call never meets the cap on ranges up to some length, and has no end of fuel of its own,
  -- then a fuel that is one more than the number of halvings from the range to that length is
  -- enough.
  pub list_splitting-finishes :
      (bound fuel : ℕ) (start end : Time)
      → ((s e : Time) → list s e ≢ err unfinished)
      → ((s e : Time) → e ≤ s + bound → list s e ≢ err page_cap)
      → end ≤ start + bound * 2 ^ fuel
      → list_splitting list (suc fuel) start end ≢ err unfinished
  list_splitting-finishes bound zero start end own narrow wide =
      after_call 0 start end (own start end) (λ e. absurd (narrow start end (omega arith) e))
  list_splitting-finishes bound (suc n) start end own narrow wide =
      after_call (suc n) start end (own start end) (λ e.
        joined (list_splitting list (suc n) start (middle start end - second))
          (list_splitting list (suc n) (middle start end) end)
          (list_splitting-finishes bound n start (middle start end - second) own narrow
            (omega (arith, doubled bound n)))
          (list_splitting-finishes bound n (middle start end) end own narrow
            (omega (arith, doubled bound n))))

module _ {Object : Type 0} (list_seconds : ℕ → ℕ → Result ListFailure (List Object)) where
  -- Over a range that is not empty and begins after the first second of all, the recursion never ends if
  -- every list up to the second of its end meets the cap, where it begins no later than the instant
  -- before the end, and every list that ends in an earlier second is answered: no amount of fuel is
  -- enough, so the cap is never reported. So it is where that one second holds more than the cap.
  pub list_splitting-unfinished :
      (fuel : ℕ) (start end : Time)
      → start < end
      → second ≤ start
      → ((a : ℕ) → a ≤ (end - 1) / second → list_seconds a (end / second) ≡ err page_cap)
      → ((a b : ℕ) → b < end / second → (xs : List Object) × (list_seconds a b ≡ ok xs))
      → list_splitting (list_by_created list_seconds) fuel start end ≡ err unfinished
  unfolding list_splitting list_by_created
  list_splitting-unfinished zero start end some_time late full quiet = refl
  list_splitting-unfinished (suc zero) start end some_time late full quiet =
      let capped = full (start / second) (omega arith) in
      let open_range : ltb start end ≡ true = ground arith in
      rw (list_splitting, list_by_created, capped, open_range) refl
  list_splitting-unfinished (suc (suc fuel)) start end some_time late full quiet =
      let capped = full (start / second) (omega arith) in
      let open_range : ltb start end ≡ true = ground arith in
      let mid = middle start end in
      let (left, answered) = quiet (start / second) ((mid - second) / second) (omega arith) in
      let rest =
        list_splitting-unfinished (suc fuel) mid end (omega arith) (omega arith) full quiet in
      rw (list_splitting, list_by_created, capped, open_range, answered, rest) refl
