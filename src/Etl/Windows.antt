-- ===== src/Etl/Windows.antt =====
-- safety/etl/gold.py: the reporting windows of a city, and the month buckets that they are summed
-- from; and the start of the fetch window of safety/etl/windows.py. A date is its year, month and
-- day; a day number counts days as `date.toordinal` does. A window's name is its span.
-- `date.replace` raises where the month has no such day, which happens only on 29 February.
pub mod Calendar
pub mod Buckets
pub mod Steps
pub mod Days
use crime_prevention_and_per.Prelude.{
  ltb, leb, nat_eq, if◌then◌else◌, ℕ, zero, suc, ◌+◌, ◌-◌, ◌*◌, ◌/◌, ◌%◌, min, max, Bool, false,
  not, ◌&&◌, ◌||◌, Option, none, some, List, [], ◌∷◌,
}

pub record Date : Type 0 where
  pub year : ℕ
  pub month : ℕ
  pub day : ℕ

unfoldable pub is_leap : ℕ → Bool
is_leap year = nat_eq (year % 4) 0 && (not (nat_eq (year % 100) 0) || nat_eq (year % 400) 0)

unfoldable pub days_in_month : ℕ → ℕ → ℕ
days_in_month year month =
    if nat_eq month 2
    then (if is_leap year then 29 else 28)
    else if nat_eq month 4 || nat_eq month 6 || (nat_eq month 9 || nat_eq month 11)
    then 30
    else 31

-- `_shift_years`
unfoldable pub shift_years : Date → ℕ → Date
unfolding days_in_month
shift_years d years =
    if leb d.day (days_in_month (d.year - years) d.month)
    then record d { year = d.year - years }
    else record d { year = d.year - years; day = 28 }

-- `_shift_months`; the day before the next month's first is the month's last
unfoldable pub shift_months : Date → ℕ → Date
unfolding days_in_month
shift_months d months =
    let index = d.year * 12 + d.month - 1 - months in
    let year = index / 12 in
    let month = index % 12 + 1 in
    record { year = year; month = month; day = min d.day (days_in_month year month) }

-- `months_before` of windows.py, at the first of the month
unfoldable pub months_before : Date → ℕ → Date
months_before d months =
    if leb d.month (months % 12)
    then record { year = d.year - months / 12 - 1; month = d.month + 12 - months % 12; day = 1 }
    else record { year = d.year - months / 12; month = d.month - months % 12; day = 1 }

-- days before the month of a year
unfoldable pub days_before : ℕ → ℕ → ℕ
unfolding days_in_month
days_before year zero = 0
days_before year (suc zero) = 0
days_before year (suc (suc month)) = days_before year (suc month) + days_in_month year (suc month)

-- `date.toordinal`
unfoldable pub ordinal : Date → ℕ
unfolding days_before
ordinal d =
    let past = d.year - 1 in
    past * 365 + past / 4 + past / 400 - past / 100 + days_before d.year d.month + d.day

-- `since` of `backfill_window`: a day before the window, but not before the registry's floor
unfoldable pub backfill_since : Date → ℕ → Option Date → ℕ
unfolding months_before ordinal
backfill_since now months floor =
    let since = ordinal (months_before now months) - 1 in
    elim floor [ none ↦ since | some f ↦ if ltb since (ordinal f) then ordinal f else since ]

-- `last_3m` and the like, `last_1y` and the like
pub data Span : Type 0 where
  months : ℕ → Span
  years : ℕ → Span

pub record Window : Type 0 where
  pub name : Span
  pub start : ℕ
  pub end : ℕ
  pub data_start : ℕ
  pub partial : Bool

unfoldable pub year_candidates : Date → ℕ → ℕ → List (Span × ℕ)
unfolding shift_years ordinal
year_candidates anchor from zero = []
year_candidates anchor from (suc left) =
    (years from, ordinal (shift_years anchor from) + 1) ∷ year_candidates anchor (from + 1) left

abbrev month_candidate : Date → ℕ → Span × ℕ
month_candidate anchor n = (months n, ordinal (shift_months anchor n) + 1)

-- `_window_candidates`, up to 99 years
unfoldable pub window_candidates : Date → List (Span × ℕ)
unfolding shift_months year_candidates ordinal
window_candidates anchor =
    month_candidate anchor 3
    ∷ month_candidate anchor 6
    ∷ month_candidate anchor 9
    ∷ year_candidates anchor 1 99

-- is a window past `previous` no gain, or too small a part of one
abbrev pub adds_little : Option ℕ → ℕ → ℕ → Bool
adds_little none floor start = false
adds_little (some previous) floor start =
    leb previous (max start floor)
    || (ltb start floor && ltb (4 * (previous - max start floor)) (previous - start))

-- the loop of `resolve_windows`
unfoldable pub resolve_from : ℕ → ℕ → Option ℕ → List (Span × ℕ) → List Window
resolve_from floor anchor previous [] = []
resolve_from floor anchor previous ((name, start) ∷ candidates) =
    let rest = resolve_from floor anchor (some start) candidates in
    let built : Window = record {
      name = name;
      start = start;
      end = anchor;
      data_start = max start floor;
      partial = ltb start floor;
    } in
    if adds_little previous floor start
    then []
    else if leb start floor
    then built ∷ []
    else built ∷ rest

-- `resolve_windows`; with no floor the list stops at two years
unfoldable pub resolve_windows : Date → Option ℕ → List Window
unfolding resolve_from window_candidates shift_years ordinal
resolve_windows anchor none =
    resolve_from (ordinal (shift_years anchor 2) + 1) (ordinal anchor) none
      (window_candidates anchor)
resolve_windows anchor (some floor) =
    resolve_from floor (ordinal anchor) none (window_candidates anchor)

-- `window_months`
unfoldable pub window_months : Span → ℕ
window_months (months n) = n
window_months (years n) = n * 12

-- `_bucket`
unfoldable pub bucket : ℕ → ℕ
bucket month_index = if ltb month_index 12 then month_index else 11 + month_index / 12

-- `window_bucket_limit`
unfoldable pub window_bucket_limit : Span → ℕ
unfolding window_months
window_bucket_limit name = let n = window_months name in if leb n 12 then n else 11 + n / 12
