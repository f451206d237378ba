-- ===== src/Reconcile/Window.antt =====
-- The window that a run reconciles: `RangeWindow`, `StripeCreatedRange` and `Settled`.
--
-- `ny_date`, which formats the date of a time in New York, is a parameter.
pub mod Created
use impact_graph.Base.{
  ℕ, ◌+◌, ◌/◌, ◌%◌, String, Bool, not, ◌||◌, if◌then◌else◌, nat_eq, ltb, ℤ, pos, pos_part, ltb_ℤ,
  ◌-ℤ◌, Result, ok, err,
}
use impact_graph.Recognition.Facts.{Time, is_zero, before, after}
use impact_graph.Payments.Facts.{unix_epoch, second}

-- ErrWindow
pub data WindowFailure : Type 0 where
  bad_window : WindowFailure

-- The lag of a window that `RangeWindow` returns is not negative.
pub record Window : Type 0 where
  pub start : Time
  pub end : Time
  pub max_lag : ℕ
  pub ny_date : String

-- RangeWindow
unfoldable pub range_window : (Time → String) → Time → Time → ℤ → Result WindowFailure Window
range_window ny_date start end max_lag =
    if is_zero start || is_zero end || not (after end start) || ltb_ℤ max_lag (pos 0)
    then err bad_window
    else ok
        (record { start = start; end = end; max_lag = pos_part max_lag; ny_date = ny_date start })

-- time.Time.Unix
unfoldable pub unix : Time → ℤ
unix t = pos (t / second) -ℤ pos unix_epoch

-- `ceil` of `StripeCreatedRange`
unfoldable pub ceil_unix : Time → ℤ
unfolding unix
ceil_unix t = if nat_eq (t % second) 0 then unix t else unix (t + second)

-- StripeCreatedRange
unfoldable pub stripe_created_range : Window → ℤ × ℤ
stripe_created_range w = (ceil_unix w.start, ceil_unix w.end -ℤ pos 1)

-- Settled
unfoldable pub settled : Window → Time → Bool
settled w now = not (before now (w.end + w.max_lag))
