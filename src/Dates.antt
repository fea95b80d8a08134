-- ===== src/Dates.antt =====
-- UTC dates as JavaScript's `Date` takes them apart: `getUTCFullYear`, `getUTCMonth` (from 0),
-- `getUTCDate` and the milliseconds of the day; years from 100 on, which `Date.UTC` takes as they are.
pub mod Months
use harpia_api.Prelude.{
  ℕ, ◌+◌, ◌*◌, ◌/◌, ◌%◌, ◌≤◌, ◌<◌, Bool, ◌&&◌, ◌||◌, not, ◌==◌, ltb, if◌then◌else◌,
}

pub record UtcDate : Type 0 where
  pub year : ℕ
  pub month : ℕ
  pub day : ℕ
  pub ms_of_day : ℕ

abbrev pub is_leap : ℕ → Bool
is_leap y = (y % 4 == 0 && not (y % 100 == 0)) || y % 400 == 0

-- `new Date(Date.UTC(year, month + 1, 0)).getUTCDate()` for a month from 0 to 11
unfoldable pub days_in_month : ℕ → ℕ → ℕ
days_in_month y m =
    if m == 1
    then (if is_leap y then 29 else 28)
    else if m == 3 || m == 5 || m == 8 || m == 10
    then 30
    else 31

pub record IsDate (d : UtcDate) : Type 0 where
  pub month_lt : d.month < 12
  pub day_pos : 1 ≤ d.day
  pub day_le : d.day ≤ days_in_month d.year d.month
  pub ms_lt : d.ms_of_day < 86400000

abbrev pub min : ℕ → ℕ → ℕ
min a b = if ltb b a then b else a

-- `addUtcMonths` of src/receivables/receivables.service.ts; `Date.UTC` carries the months past
-- December into the years.
pub add_utc_months : UtcDate → ℕ → UtcDate
unfolding days_in_month
add_utc_months d months =
    let target_month = d.month + months in
    let year = d.year + target_month / 12 in
    let month = target_month % 12 in
    record {
      year = year;
      month = month;
      day = min d.day (days_in_month year month);
      ms_of_day = d.ms_of_day;
    }

-- Months counted from year 0.
abbrev pub month_index : UtcDate → ℕ
month_index d = d.year * 12 + d.month

-- The order of `getTime()`.
abbrev pub time : UtcDate → ℕ
time d = (month_index d * 31 + d.day) * 86400000 + d.ms_of_day

-- `startOfUtcDay`
abbrev pub start_of_day : UtcDate → UtcDate
start_of_day d = record d { ms_of_day = 0 }
