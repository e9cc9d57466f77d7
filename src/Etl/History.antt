-- ===== src/Etl/History.antt =====
-- safety/etl/run.py: a city's published history, a slice at a time. A `datetime` is its date and
-- the microsecond of its day, at UTC; adding a `timedelta` of a day to one goes to the next date.
pub mod Days
pub mod Slices
use crime_prevention_and_per.Prelude.{
  ltb, nat_eq, if◌then◌else◌, ℕ, zero, suc, ◌-◌, Bool, ◌&&◌, ◌||◌, Option, none, some, List, [],
  ◌∷◌,
}
use crime_prevention_and_per.Etl.Windows.{Date, days_in_month, months_before, ordinal}

pub record Instant : Type 0 where
  pub date : Date
  pub time : ℕ

-- `datetime(d.year, d.month, d.day)`
abbrev pub midnight : Date → Instant
midnight d = record { date = d; time = 0 }

-- `+ timedelta(days=1)` and `- timedelta(days=1)`
unfoldable pub next_day : Date → Date
unfolding days_in_month
next_day d =
    if ltb d.day (days_in_month d.year d.month)
    then record d { day = suc d.day }
    else if ltb d.month 12
    then record { year = d.year; month = suc d.month; day = 1 }
    else record { year = suc d.year; month = 1; day = 1 }

unfoldable pub previous_day : Date → Date
unfolding days_in_month
previous_day d =
    if ltb 1 d.day
    then record d { day = d.day - 1 }
    else if ltb 1 d.month
    then record { year = d.year; month = d.month - 1; day = days_in_month d.year (d.month - 1) }
    else record { year = d.year - 1; month = 12; day = 31 }

abbrev pub day_after : Instant → Instant
day_after t = record t { date = next_day t.date }

abbrev pub day_before : Instant → Instant
day_before t = record t { date = previous_day t.date }

-- `a < b`
unfoldable pub is_before : Instant → Instant → Bool
is_before a b =
    ltb (ordinal a.date) (ordinal b.date)
    || nat_eq (ordinal a.date) (ordinal b.date) && ltb a.time b.time

-- `max(a, b)`
abbrev pub later : Instant → Instant → Instant
later a b = if is_before a b then b else a

-- `since` of a slice that ends at the cursor
unfoldable pub slice_since : Date → ℕ → Instant → Instant
unfolding is_before next_day previous_day months_before
slice_since floor slice_months cursor =
    later (midnight floor)
      (day_before (midnight (months_before (next_day cursor.date) slice_months)))

-- `history_slices`: (since, until), newest first
unfoldable pub history_slices : ℕ → Instant → Date → ℕ → Option (List (Instant × Instant))
unfolding slice_since is_before next_day
history_slices zero cursor floor slice_months = none
history_slices (suc fuel) cursor floor slice_months =
    let since = slice_since floor slice_months cursor in
    let rest = history_slices fuel since floor slice_months in
    if is_before (midnight floor) cursor
    then elim rest [ none ↦ none | some slices ↦ some ((since, day_after cursor) ∷ slices) ]
    else some []
