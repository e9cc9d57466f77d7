-- ===== src/Etl/History/Days.antt =====
-- The day after a date and the day before the first of a month, by their day numbers.
use crime_prevention_and_per.Prelude.{
  ltb, if◌then◌else◌, Bool-cases, ℕ, zero, suc, ◌+◌, ◌-◌, ◌*◌, ◌≤◌, ◌≡◌, refl, ap, subst, ◌∙◌, inl,
  inr, true, arith,
}
use crime_prevention_and_per.Etl.Windows.{Date, days_in_month, ordinal}
use crime_prevention_and_per.Etl.Windows.Calendar.{IsDate}
use crime_prevention_and_per.Etl.Windows.Days.{
  days_in_month_bounds, first_of_month, month_at, month_index, next_month, ordinal-next_month,
  ordinal-month, months_apart, month_at-index,
}
use crime_prevention_and_per.Etl.History.{next_day, previous_day, later}

-- A date that Python has: from the year 1 on.
pub record IsDay (d : Date) : Type 0 where
  pub date : IsDate d
  pub from_year_one : 1 ≤ d.year

pub first_of_month-IsDay : (y m : ℕ) → 1 ≤ y → 1 ≤ m → m ≤ 12 → IsDay (first_of_month y m)
first_of_month-IsDay y m year lo hi = record {
  date = record {
    from_january = lo;
    to_december = hi;
    from_first = omega arith;
    to_last = omega (arith, (days_in_month_bounds y m).0);
  };
  from_year_one = year;
}

first_day : ordinal (month_at 12) ≡ 1
unfolding ordinal
first_day = refl

module _ (d : Date) (v : IsDay d) where
  pub ordinal-next_day : ordinal (next_day d) ≡ suc (ordinal d)
  unfolding next_day
  ordinal-next_day =
      let first = v.date.from_first in
      let here = ordinal-month d first in
      elim (Bool-cases (ltb d.day (days_in_month d.year d.month))) [
        | inl within ↦
            rw (within, days_in_month)
              (omega (arith, here, ordinal-month (record d { day = suc d.day }) (omega arith)))
        | inr last ↦
            let end = v.date.to_last in
            let month =
              ordinal-next_month d.year d.month v.from_year_one v.date.from_january
                v.date.to_december in
            let full : d.day ≡ days_in_month d.year d.month = ground arith in
            rw (last, days_in_month) (month ∙ omega (arith, here, full))
      ]

  pub next_day-IsDay : IsDay (next_day d)
  unfolding next_day
  next_day-IsDay = elim (Bool-cases (ltb d.day (days_in_month d.year d.month))) [
    | inl within ↦
        rw (within, days_in_month)
          (record {
            date = record {
              from_january = v.date.from_january;
              to_december = v.date.to_december;
              from_first = omega arith;
              to_last = ground arith;
            };
            from_year_one = v.from_year_one;
          })
    | inr last ↦ elim (Bool-cases (ltb d.month 12)) [
      | inl later ↦
          rw (last, days_in_month)
            (rw later (
              first_of_month-IsDay d.year (suc d.month) v.from_year_one (omega arith)
                (ground arith)))
      | inr december ↦
          rw (last, days_in_month)
            (rw december
              (first_of_month-IsDay (suc d.year) 1 (omega arith) (omega arith) (omega arith)))
    ]
  ]

  -- A date's month is not before its day number's worth of months.
  pub month_index-bound : ordinal d + 12 * 31 ≤ 31 * month_index d + 32
  month_index-bound =
      let lo = v.date.from_january in
      let n = month_index d - 12 in
      let e : n + 12 ≡ month_index d = omega (arith, v.from_year_one) in
      let apart = (months_apart 12 n (omega arith)).1 in
      let first : ordinal (month_at (n + 12)) ≡ ordinal (first_of_month d.year d.month) =
        rw e (ap ordinal (month_at-index d v.date)) in
      let lengths = (days_in_month_bounds d.year d.month).1 in
      omega (
        arith,
        e,
        apart,
        first,
        first_day,
        lengths,
        v.date.to_last,
        ordinal-month d v.date.from_first,
      )

abbrev last_of_month : ℕ → ℕ → Date
last_of_month y m = record { year = y; month = m; day = days_in_month y m }

last_of_month_lem :
    (y m : ℕ)
    → 1 ≤ y
    → 1 ≤ m
    → m ≤ 12
    → (suc (ordinal (last_of_month y m)) ≡ ordinal (next_month y m)) × IsDay (last_of_month y m)
last_of_month_lem y m year lo hi =
    let lengths = days_in_month_bounds y m in
    let some_day : 1 ≤ days_in_month y m = omega (arith, lengths.0) in
    (
      omega (arith, ordinal-month (last_of_month y m) some_day, ordinal-next_month y m year lo hi),
      record {
        date = record {
          from_january = lo;
          to_december = hi;
          from_first = some_day;
          to_last = omega arith;
        };
        from_year_one = year;
      },
    )

-- The day before the first of a month is the last of the month before.
pub previous_day-first :
    (y m : ℕ)
    → 1 ≤ m
    → m ≤ 12
    → 13 ≤ y * 12 + m - 1
    → (suc (ordinal (previous_day (first_of_month y m))) ≡ ordinal (first_of_month y m))
      × IsDay (previous_day (first_of_month y m))
unfolding previous_day days_in_month
previous_day-first y zero lo hi second = absurd (omega arith)
previous_day-first zero (suc zero) lo hi second = absurd (omega arith)
previous_day-first (suc y) (suc zero) lo hi second =
    let e : suc y - 1 ≡ y = omega arith in
    rw (e, previous_day) (last_of_month_lem y 12 (omega arith) (omega arith) (omega arith))
previous_day-first y (suc (suc n)) lo hi second =
    let late : ltb 1 (suc (suc n)) ≡ true = ground arith in
    let e : suc (suc n) - 1 ≡ suc n = omega arith in
    let early : ltb (suc n) 12 ≡ true = ground arith in
    rw (late, e)
      (subst
        (λ b.
          (suc (ordinal (last_of_month y (suc n)))
            ≡ ordinal (if b then first_of_month y (suc (suc n)) else first_of_month (suc y) 1))
          × IsDay (last_of_month y (suc n)))
        early (last_of_month_lem y (suc n) (omega arith) (omega arith) (omega arith)))
