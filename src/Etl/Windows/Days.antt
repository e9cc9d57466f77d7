-- ===== src/Etl/Windows/Days.antt =====
-- Day numbers of dates: the day after and the day before, and how far apart the months are.
use crime_prevention_and_per.Prelude.{
  ltb, nat_eq, if◌then◌else◌, Bool-cases, ℕ, zero, suc, ◌+◌, ◌-◌, ◌*◌, ◌/◌, ◌%◌, ◌≤◌, ◌<◌, ◌≡◌,
  refl, ap, ◌∙◌, inl, inr, arith,
}
use crime_prevention_and_per.Etl.Windows.{
  Date, is_leap, days_in_month, shift_months, months_before, days_before, ordinal,
}
use crime_prevention_and_per.Etl.Windows.Calendar.{IsDate, months_before-eq-shift_months}

pub days_in_month_bounds : (y m : ℕ) → (28 ≤ days_in_month y m) × (days_in_month y m ≤ 31)
unfolding days_in_month
days_in_month_bounds y m = (ground arith, ground arith)

abbrev pub first_of_month : ℕ → ℕ → Date
first_of_month y m = record { year = y; month = m; day = 1 }

-- The first of the next month is a month's length later.
month_later :
    (y m : ℕ)
    → 1 ≤ m
    → ordinal (first_of_month y (suc m)) ≡ ordinal (first_of_month y m) + days_in_month y m
unfolding ordinal days_before
month_later y zero h = absurd (omega arith)
month_later y (suc m) h = omega arith

-- the days of a year before December
before_december : (y : ℕ) → days_before y 12 ≡ (if is_leap y then 335 else 334)
unfolding days_before days_in_month
before_december y = ground arith

quarter : (y : ℕ) → suc y / 4 ≡ y / 4 + (if nat_eq (suc y % 4) 0 then 1 else 0)
quarter y = ground arith

century : (y : ℕ) → suc y / 100 ≡ y / 100 + (if nat_eq (suc y % 100) 0 then 1 else 0)
century y = ground arith

cycle : (y : ℕ) → suc y / 400 ≡ y / 400 + (if nat_eq (suc y % 400) 0 then 1 else 0)
cycle y = ground arith

by_four : (n : ℕ) → n % 100 ≡ 0 → n % 4 ≡ 0
by_four n h = omega arith

by_hundred : (n : ℕ) → n % 400 ≡ 0 → n % 100 ≡ 0
by_hundred n h = omega arith

few_centuries : (y : ℕ) → y / 100 ≤ y / 4
few_centuries y = omega arith

abbrev leap_days : ℕ → ℕ
leap_days y = y / 4 + y / 400 - y / 100

leap_days_later : (y : ℕ) → leap_days (suc y) ≡ leap_days y + (if is_leap (suc y) then 1 else 0)
unfolding is_leap
leap_days_later y =
    ground
      (arith, quarter y, century y, cycle y, by_four (suc y), by_hundred (suc y), few_centuries y)

year_later :
    (y : ℕ) → ordinal (first_of_month (suc (suc y)) 1) ≡ ordinal (first_of_month (suc y) 12) + 31
unfolding ordinal days_before
year_later y = ground (arith, leap_days_later y, few_centuries y, few_centuries (suc y))

-- the k-th month since the year 0, and the month of a date
abbrev pub month_at : ℕ → Date
month_at k = first_of_month (k / 12) (k % 12 + 1)

abbrev pub month_index : Date → ℕ
month_index d = d.year * 12 + d.month - 1

-- the first of the month after one
abbrev pub next_month : ℕ → ℕ → Date
next_month y m = if ltb m 12 then first_of_month y (suc m) else first_of_month (suc y) 1

next_month_lem :
    (y m : ℕ)
    → 1 ≤ m
    → m ≤ 12
    → ordinal (next_month (suc y) m) ≡ ordinal (first_of_month (suc y) m) + days_in_month (suc y) m
unfolding days_in_month
next_month_lem y m lo hi = elim (Bool-cases (ltb m 12)) [
  | inl within ↦ rw within (month_later (suc y) m lo)
  | inr december ↦ let e : m ≡ 12 = ground arith in rw (e) (year_later y)
]

pub ordinal-next_month :
    (y m : ℕ)
    → 1 ≤ y
    → 1 ≤ m
    → m ≤ 12
    → ordinal (next_month y m) ≡ ordinal (first_of_month y m) + days_in_month y m
ordinal-next_month zero m a lo hi = absurd (omega arith)
ordinal-next_month (suc y) m a lo hi = next_month_lem y m lo hi

month_at-suc : (k : ℕ) → month_at (suc k) ≡ next_month (k / 12) (k % 12 + 1)
month_at-suc k = ground arith

pub ordinal-month :
    (d : Date) → 1 ≤ d.day → ordinal d + 1 ≡ ordinal (first_of_month d.year d.month) + d.day
unfolding ordinal
ordinal-month d h = omega arith

between : (a b len : ℕ) → b ≡ a + len → 28 ≤ len → len ≤ 31 → (a + 28 ≤ b) × (b ≤ a + 31)
between a b len e lo hi = (omega arith, omega arith)

month_at-bounds :
    (k : ℕ)
    → 12 ≤ k
    → (ordinal (month_at k) + 28 ≤ ordinal (month_at (suc k)))
      × (ordinal (month_at (suc k)) ≤ ordinal (month_at k) + 31)
month_at-bounds k h =
    let p = month_at-suc k in
    let (y, e) : (y : ℕ) × (k / 12 ≡ suc y) = (k / 12 - 1, omega arith) in
    let step = next_month_lem y (k % 12 + 1) (omega arith) (omega arith) in
    let lengths = days_in_month_bounds (suc y) (k % 12 + 1) in
    rw (p, e) (between _ _ _ step lengths.0 lengths.1)

pub months_apart :
    (k n : ℕ)
    → 12 ≤ k
    → (ordinal (month_at k) + 28 * n ≤ ordinal (month_at (n + k)))
      × (ordinal (month_at (n + k)) ≤ ordinal (month_at k) + 31 * n)
months_apart k zero h = let e : 0 + k ≡ k = omega arith in rw e (omega arith, omega arith)
months_apart k (suc n) h =
    let e : suc n + k ≡ suc (n + k) = omega arith in
    let b = month_at-bounds (n + k) (omega arith) in
    let ih = months_apart k n h in rw e (omega (arith, b.0, ih.0), omega (arith, b.1, ih.1))

module _ (d : Date) (v : IsDate d) where
  pub month_at-index : month_at (month_index d) ≡ first_of_month d.year d.month
  month_at-index = ground arith

  pub months_before-eq-month_at :
      (n : ℕ) → n < d.year * 12 → months_before d n ≡ month_at (month_index d - n)
  unfolding shift_months
  months_before-eq-month_at n h = months_before-eq-shift_months d n v h ∙ refl

  -- Going back n months goes back between 28 and 31 days for each, and to the first of a month.
  pub months_before-bounds :
      (n : ℕ)
      → n + 12 ≤ month_index d
      → (ordinal (months_before d n) + 28 * n ≤ ordinal d)
        × (ordinal d ≤ ordinal (months_before d n) + 31 * n + 30)
  months_before-bounds n h =
      let k = month_index d - n in
      let e : n + k ≡ month_index d = omega arith in
      let apart = months_apart k n (omega arith) in
      let here = ordinal-month d v.from_first in
      let last = v.to_last in
      let lengths = days_in_month_bounds d.year d.month in
      let top : ordinal (month_at (n + k)) ≡ ordinal (first_of_month d.year d.month) =
        rw e (ap ordinal month_at-index) in
      rw (months_before-eq-month_at n (omega (arith, v.to_december))) (
        omega (arith, apart.0, top, here, v.from_first),
        omega (arith, apart.1, top, here, last, lengths.1),
      )
