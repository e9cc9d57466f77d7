-- ===== src/Routing/Budget.antt =====
-- safety/routing/budget.py: how many upstream calls a provider may take per UTC day.
-- The clock is UTC microseconds since the epoch, so a day turns over where `now / day_us` does. The
-- lock makes each method one step; `take` reads the clock once under it and, to say when to come
-- back, once more after it.
pub mod Days
pub mod Reset
use crime_prevention_and_per.Prelude.{
  leb, nat_eq, if◌then◌else◌, ℕ, ◌+◌, ◌-◌, ◌*◌, ◌/◌, ◌%◌, max, String, Option, none, some,
}
use crime_prevention_and_per.Prelude.Int.{ℤ, pos_part}
use crime_prevention_and_per.Routing.Errors.{RoutingError, budget_exhausted}

abbrev pub second_us : ℕ
second_us = 1_000_000

abbrev pub day_us : ℕ
day_us = 86_400 * 1_000_000

pub record DailyBudget : Type 0 where
  pub limit : ℕ
  pub provider : String
  pub day : ℕ
  pub used : ℕ

-- `self._clock().astimezone(UTC).date()`
abbrev pub today : ℕ → ℕ
today now = now / day_us

-- `max(0, int(limit))`
pub init : ℤ → String → ℕ → DailyBudget
init limit provider now = record {
  limit = pos_part limit;
  provider = provider;
  day = today now;
  used = 0;
}

unfoldable pub roll : DailyBudget → ℕ → DailyBudget
roll b now = if nat_eq (today now) b.day then b else record b { day = today now; used = 0 }

unfoldable pub remaining : DailyBudget → ℕ → ℕ × DailyBudget
unfolding roll
remaining b now = let b' = roll b now in (b'.limit - b'.used, b')

-- `max(1, int((midnight - now).total_seconds()))`
unfoldable pub seconds_until_reset : ℕ → ℕ
seconds_until_reset now = max 1 ((day_us - now % day_us) / second_us)

-- `now` is the reading under the lock, `after` the one that the error's retry time is taken from.
unfoldable pub charge : DailyBudget → ℕ → ℕ → Option RoutingError × DailyBudget
unfolding roll
charge b now after =
    let b' = roll b now in
    if leb b'.limit b'.used
    then (some (budget_exhausted b'.provider (seconds_until_reset after)), b')
    else (none, record b' { used = b'.used + 1 })

unfoldable pub refund : DailyBudget → ℕ → DailyBudget
unfolding roll
refund b now = let b' = roll b now in record b' { used = b'.used - 1 }
