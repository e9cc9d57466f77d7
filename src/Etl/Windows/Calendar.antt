-- ===== src/Etl/Windows/Calendar.antt =====
-- Whole years and months of the calendar agree.
use crime_prevention_and_per.Prelude.{
  leb, Bool-cases, ℕ, ◌+◌, ◌-◌, ◌*◌, ◌/◌, ◌%◌, ◌≤◌, ◌<◌, ◌≡◌, ◌⊎◌, inl, inr, arith,
}
use crime_prevention_and_per.Etl.Windows.{
  Date, days_in_month, shift_years, shift_months, months_before,
}

pub record IsDate (d : Date) : Type 0 where
  pub from_january : 1 ≤ d.month
  pub to_december : d.month ≤ 12
  pub from_first : 1 ≤ d.day
  pub to_last : d.day ≤ days_in_month d.year d.month

-- A month has 28 days at least, and only February's length depends on the year.
length_of_month :
    (y z m : ℕ)
    → (days_in_month y m ≤ days_in_month z m)
      ⊎ ((days_in_month y m ≡ 29) × (days_in_month z m ≡ 28))
unfolding days_in_month
length_of_month y z m = ground arith

year_back : (y m n : ℕ) → 1 ≤ m → m ≤ 12 → n ≤ y → (y * 12 + m - 1 - 12 * n) / 12 ≡ y - n
year_back y m n a b c = omega arith

month_stays : (y m n : ℕ) → 1 ≤ m → m ≤ 12 → n ≤ y → (y * 12 + m - 1 - 12 * n) % 12 + 1 ≡ m
month_stays y m n a b c = omega arith

-- Going back some years is going back twelve times as many months, on every date, 29 February
-- included, so that the windows of years begin where the month buckets do. And the result is a
-- date.
pub shift_years-eq-shift_months :
    (d : Date) (n : ℕ)
    → IsDate d
    → n ≤ d.year
    → (shift_years d n ≡ shift_months d (12 * n)) × IsDate (shift_years d n)
unfolding shift_years shift_months
shift_years-eq-shift_months d n v h =
    let lo = v.from_january in
    let hi = v.to_december in
    let first = v.from_first in
    let last = v.to_last in
    let y = year_back d.year d.month n lo hi h in
    let m = month_stays d.year d.month n lo hi h in
    let lengths = length_of_month d.year (d.year - n) d.month in
    (
      rw (y, m) (ground arith),
      record {
        from_january = ground arith;
        to_december = ground arith;
        from_first = ground arith;
        to_last = ground arith;
      },
    )

-- The fetch window's months are the reporting windows' months: it starts on the first day of the
-- month that the reporting window of as many months starts in.
pub months_before-eq-shift_months :
    (d : Date) (n : ℕ)
    → IsDate d
    → n < d.year * 12
    → months_before d n ≡ record (shift_months d n) { day = 1 }
unfolding months_before shift_months
months_before-eq-shift_months d n v h =
    let lo = v.from_january in
    let hi = v.to_december in
    elim (Bool-cases (leb d.month (n % 12))) [
      | inl borrow ↦ rw borrow (ground arith)
      | inr same ↦ rw same (ground arith)
    ]
