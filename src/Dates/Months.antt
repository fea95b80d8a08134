-- ===== src/Dates/Months.antt =====
-- Adding months to the due date of an instalment, `addUtcMonths` of
-- src/receivables/receivables.service.ts.
use harpia_api.Prelude.{ℕ, ◌+◌, ◌/◌, ◌%◌, ◌≤◌, ◌≡◌, refl, arith, ltb, if◌then◌else◌}
use harpia_api.Dates.{UtcDate, IsDate, days_in_month, add_utc_months, month_index, min}

days_in_month_pos : (y m : ℕ) → 28 ≤ days_in_month y m
unfolding days_in_month
days_in_month_pos y m = ground arith

min_le : (a b : ℕ) → (min a b ≤ a) × (min a b ≤ b)
min_le a b = ground arith

min_pos : (a b : ℕ) → 1 ≤ a → 1 ≤ b → 1 ≤ min a b
min_pos a b ha hb = ground arith

-- What a due date `n` months after `d` is: that many months later, on the same day where the month
-- has it and on the month's last day otherwise, at the same time of day.
pub record IsMonthsAfter (d : UtcDate) (n : ℕ) (e : UtcDate) : Type 0 where
  pub date : IsDate e
  pub months : month_index e ≡ month_index d + n
  pub day :
      e.day
      ≡ (if ltb (days_in_month e.year e.month) d.day then days_in_month e.year e.month else d.day)
  pub time_of_day : e.ms_of_day ≡ d.ms_of_day

-- Adding months to a date gives a date of the calendar that many months later, on the same day or,
-- where the month is too short, on its last day, at the same time of day.
pub add_utc_months_lem : (d : UtcDate) (n : ℕ) → IsDate d → IsMonthsAfter d n (add_utc_months d n)
unfolding add_utc_months
add_utc_months_lem d n valid =
    let year = d.year + (d.month + n) / 12 in
    let month = (d.month + n) % 12 in
    let enough = days_in_month_pos year month in
    let low = min_pos d.day (days_in_month year month) valid.day_pos (omega (arith, enough)) in
    record {
      date = record {
        month_lt = omega arith;
        day_pos = low;
        day_le = (min_le d.day (days_in_month year month)).1;
        ms_lt = valid.ms_lt;
      };
      months = omega arith;
      day = refl;
      time_of_day = refl;
    }
