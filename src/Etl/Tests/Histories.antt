-- ===== src/Etl/Tests/Histories.antt =====
-- The theorems on a city's history at concrete inputs.
use crime_prevention_and_per.Prelude.{
  ltb, if◌then◌else◌, ℕ, ◌≡◌, refl, Bool, false, Option, none, some, List, [], ◌∷◌, arith,
}
use crime_prevention_and_per.Etl.Windows.{Date, is_leap, days_in_month, ordinal}
use crime_prevention_and_per.Etl.Schedule.{backfill, PullStatus, succeeded, blocked}
use crime_prevention_and_per.Etl.History.{Instant, history_slices}
use crime_prevention_and_per.Etl.History.Days.{IsDay}
use crime_prevention_and_per.Etl.History.Slices.{Loads, history_slices_lem}
use crime_prevention_and_per.Etl.CatchUp.{HistoryPull, history_covered_from, Slice, months_of}
use crime_prevention_and_per.Etl.CatchUp.Finish.{Finishes, cmd_history_lem}

abbrev start_of_2001 : Date
start_of_2001 = record { year = 2001; month = 1; day = 1 }

-- the last day of February, in the afternoon
abbrev covered : Instant
covered = record { date = record { year = 2002; month = 2; day = 28 }; time = 50_000_000_000 }

abbrev on : ℕ → ℕ → ℕ → ℕ → Instant
on year month day time = record {
  date = record { year = year; month = month; day = day };
  time = time;
}

-- Two slices of six months, with a day on each side, and a shorter one.
three_slices :
    history_slices 4 covered start_of_2001 6
    ≡ some (
        (on 2001 8 31 0, on 2002 3 1 50_000_000_000)
        ∷ (on 2001 2 28 0, on 2001 9 1 0)
        ∷ (on 2001 1 1 0, on 2001 3 1 0)
        ∷ [])
unfolding history_slices ordinal is_leap
three_slices = refl

start_of_2001-IsDay : IsDay start_of_2001
unfolding days_in_month
start_of_2001-IsDay = record {
  date = record {
    from_january = omega arith;
    to_december = omega arith;
    from_first = omega arith;
    to_last = omega arith;
  };
  from_year_one = omega arith;
}

covered-IsDay : IsDay covered.date
unfolding days_in_month is_leap
covered-IsDay = record {
  date = record {
    from_january = omega arith;
    to_december = omega arith;
    from_first = omega arith;
    to_last = omega arith;
  };
  from_year_one = omega arith;
}

history_slices_lem_example :
    Loads start_of_2001 6 covered (history_slices 500 covered start_of_2001 6)
unfolding ordinal
history_slices_lem_example =
    history_slices_lem start_of_2001 6 start_of_2001-IsDay (omega arith) (omega arith) 500 covered
      covered-IsDay (omega arith) (omega arith)

abbrev backfilled : List HistoryPull
backfilled =
    record {
      source_id = "chi";
      mode = backfill;
      status = succeeded;
      window_start = some covered;
      dataset = "crimes";
    }
    ∷ []

-- The newest slice succeeds, and the one before it is blocked.
abbrev newest_only : Slice → Option PullStatus
newest_only s = if ltb s.since.date.month 8 then some blocked else some succeeded

abbrev never : ℕ → Bool
never n = false

cmd_history_lem_example :
    (xs : List Slice) × Finishes "chi" "crimes" start_of_2001 none 6 500 newest_only never 0 false
      backfilled xs
unfolding ordinal months_of history_covered_from
cmd_history_lem_example =
    cmd_history_lem "chi" "crimes" start_of_2001 none 6 500 newest_only never 0 false covered
      backfilled start_of_2001-IsDay covered-IsDay (omega arith) (omega arith) (omega arith) refl
