-- ===== src/Routing/Budget/Reset.antt =====
-- When a refused caller is told to come back.
use crime_prevention_and_per.Prelude.{
  leb, nat_eq, if◌then◌else◌, ℕ, ◌+◌, ◌-◌, ◌*◌, ◌/◌, ◌%◌, ◌≤◌, max, ◌≡◌, ◌||◌, some, arith,
}
use crime_prevention_and_per.Routing.Errors.{budget_exhausted}
use crime_prevention_and_per.Routing.Budget.{
  second_us, day_us, DailyBudget, today, roll, seconds_until_reset, charge,
}

-- A charge that finds the day's allowance spent changes nothing but the day, and its error says how
-- long until midnight, from the second reading of the clock.
pub charge_refused :
    (b : DailyBudget) (now after : ℕ)
    → (roll b now).limit ≤ (roll b now).used
    → charge b now after
      ≡ (some (budget_exhausted b.provider (seconds_until_reset after)), roll b now)
unfolding charge
charge_refused b now after h = ground arith

-- The time told is between one second and a day. A client that waits one second longer than it was
-- told arrives on the next day. One that waits exactly as told does so if the clock stood on a
-- whole second or at most a second was left; else it arrives too early, still on the same day.
pub seconds_until_reset_lem :
    (now : ℕ)
    → let s = seconds_until_reset now in
      (1 ≤ s)
      × (s ≤ 86_400)
      × (today (now + (s + 1) * second_us) ≡ today now + 1)
      × (today (now + s * second_us) ≡ (
          if nat_eq (now % second_us) 0 || leb day_us (now % day_us + second_us)
          then today now + 1
          else today now))
unfolding seconds_until_reset
seconds_until_reset_lem now = (omega arith, omega arith, omega arith, on_time)
  where
    on_time : today (now + max 1 ((day_us - now % day_us) / second_us) * second_us) ≡ (
        if nat_eq (now % second_us) 0 || leb day_us (now % day_us + second_us)
        then today now + 1
        else today now)
    on_time = ground arith
