-- ===== src/Routing/Budget/Days.antt =====
-- How many calls a day's allowance lets through.
use crime_prevention_and_per.Prelude.{
  nat_eq, if◌then◌else◌, All, sum_by, ℕ, ◌+◌, ◌≤◌, ◌≡◌, none, some, List, [], ◌∷◌, arith,
}
use crime_prevention_and_per.Routing.Budget.{DailyBudget, today, charge, refund}

-- One use of the budget, with the clock's readings.
pub data Use : Type 0 where
  take_one : ℕ → ℕ → Use
  give_back : ℕ → Use

abbrev pub at : Use → ℕ
at (take_one now _) = now
at (give_back now) = now

-- The calls that were let through, and the charges given back, during UTC day `d`.
pub record Tally : Type 0 where
  pub granted : ℕ
  pub returned : ℕ

unfoldable pub use_one : Use → DailyBudget → DailyBudget
unfolding charge refund
use_one (take_one now after) b = (charge b now after).1
use_one (give_back now) b = refund b now

abbrev pub grants : Use → DailyBudget → ℕ
grants (take_one now after) b = elim (charge b now after).0 [ none ↦ 1 | some _ ↦ 0 ]
grants (give_back _) b = 0

abbrev pub returns : Use → ℕ
returns (take_one _ _) = 0
returns (give_back _) = 1

-- Uses at clock readings that all lie in day `d`.
abbrev pub OnDay : ℕ → List Use → Type 0
OnDay d us = All (λ u. today (at u) ≡ d) us

unfoldable pub run : List Use → DailyBudget → DailyBudget
run [] b = b
run (u ∷ us) b = run us (use_one u b)

unfoldable pub total_granted : List Use → DailyBudget → ℕ
total_granted [] b = 0
total_granted (u ∷ us) b = grants u b + total_granted us (use_one u b)

abbrev pub total_returned : List Use → ℕ
total_returned = sum_by returns

use_one-limit : (u : Use) (b : DailyBudget) → (use_one u b).limit ≡ b.limit
unfolding use_one
use_one-limit (take_one now after) b = ground arith
use_one-limit (give_back now) b = ground arith

-- What is charged on the day of the clock: nothing yet, if the budget last saw another day.
abbrev pub used_on : ℕ → DailyBudget → ℕ
used_on d b = if nat_eq d b.day then b.used else 0

use_one-used :
    (d : ℕ) (u : Use) (b : DailyBudget)
    → today (at u) ≡ d
    → used_on d b ≤ b.limit
    → (used_on d (use_one u b) ≤ b.limit)
      × (used_on d b + grants u b ≤ used_on d (use_one u b) + returns u)
unfolding use_one charge
use_one-used d (take_one now after) b e h = ground arith
use_one-used d (give_back now) b e h = ground arith

granted-le :
    (d : ℕ) (us : List Use) (b : DailyBudget)
    → OnDay d us
    → used_on d b ≤ b.limit
    → used_on d b + total_granted us b ≤ b.limit + total_returned us
unfolding total_granted
granted-le d [] b on h = omega arith
granted-le d (u ∷ us) b on h =
    let (fits, counted) = use_one-used d u b on.0 h in
    omega (
      arith,
      counted,
      use_one-limit u b,
      granted-le d us (use_one u b) on.1 (rw (use_one-limit u b) fits),
    )

-- On one UTC day, from a budget that is within its limit, the calls let through are at most the
-- limit and the charges given back that day; with none given back, at most the limit.
pub granted-le-limit :
    (d : ℕ) (us : List Use) (b : DailyBudget)
    → OnDay d us
    → used_on d b ≤ b.limit
    → total_granted us b ≤ b.limit + total_returned us
granted-le-limit d us b on h = omega (arith, granted-le d us b on h)
