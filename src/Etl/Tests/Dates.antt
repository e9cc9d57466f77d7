-- ===== src/Etl/Tests/Dates.antt =====
-- The theorems on windows and dates at concrete inputs.
use crime_prevention_and_per.Prelude.{◌≡◌, refl, none, some, arith}
use crime_prevention_and_per.Etl.Windows.{
  Date, is_leap, days_in_month, shift_years, ordinal, resolve_windows,
}
use crime_prevention_and_per.Etl.Windows.Calendar.{IsDate}
use crime_prevention_and_per.Etl.Windows.Steps.{Widening, resolve_windows-Widening}

abbrev leap_day : Date
leap_day = record { year = 2024; month = 2; day = 29 }

leap_day-IsDate : IsDate leap_day
unfolding days_in_month is_leap
leap_day-IsDate = record {
  from_january = omega arith;
  to_december = omega arith;
  from_first = omega arith;
  to_last = omega arith;
}

a_year_before : shift_years leap_day 1 ≡ record { year = 2023; month = 2; day = 28 }
unfolding shift_years is_leap
a_year_before = refl

day_number : ordinal leap_day ≡ 738_945
unfolding ordinal is_leap
day_number = refl

resolve_windows-Widening_example :
    Widening 738_000 (ordinal leap_day) none (resolve_windows leap_day (some 738_000))
resolve_windows-Widening_example = resolve_windows-Widening leap_day 738_000
