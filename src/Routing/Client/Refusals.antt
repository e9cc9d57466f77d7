-- ===== src/Routing/Client/Refusals.antt =====
-- A call that is not made is not charged.
use crime_prevention_and_per.Routing.Breaker.{allow}
use crime_prevention_and_per.Prelude.{ℕ, ◌≡◌, refl, ◌⊎◌, Option, none, some, arith}
use crime_prevention_and_per.Routing.Errors.{RoutingError, provider_unavailable}
use crime_prevention_and_per.Routing.Budget.{DailyBudget, roll, charge, refund}
use crime_prevention_and_per.Routing.Client.{Client, take_budget, refund_budget, admit}

-- The budget with its day brought up to the clock, and nothing charged.
abbrev pub rolled : Option DailyBudget → ℕ → Option DailyBudget
rolled none utc = none
rolled (some b) utc = some (roll b utc)

-- What a refusal may leave of a client: all as it was, but for the budget's day.
abbrev pub Uncharged : Client → ℕ → Client → Type 0
Uncharged c utc c' =
    (c'.breaker ≡ c.breaker) × ((c'.budget ≡ c.budget) ⊎ (c'.budget ≡ rolled c.budget utc))

refund-charge :
    (b : DailyBudget) (utc : ℕ)
    → (charge b utc utc).0 ≡ none
    → refund (charge b utc utc).1 utc ≡ roll b utc
unfolding charge refund
refund-charge b utc p = ground arith

charge-roll :
    (b : DailyBudget) (utc : ℕ) (e : RoutingError)
    → (charge b utc utc).0 ≡ some e
    → (charge b utc utc).1 ≡ roll b utc
unfolding charge
charge-roll b utc e p = ground arith

refused-Uncharged :
    (c : Client) (mono utc : ℕ) (e : RoutingError) (o : Option DailyBudget)
    → c.budget ≡ o
    → (admit c mono utc).0 ≡ some e
    → Uncharged c utc (admit c mono utc).1
unfolding admit take_budget refund_budget allow
refused-Uncharged c mono utc e none q p = ground arith
refused-Uncharged c mono utc e (some b) q p =
    ground (arith, refund-charge b utc, charge-roll b utc e)

refused-reason :
    (c : Client) (mono utc : ℕ) (e : RoutingError)
    → (admit c mono utc).0 ≡ some e
    → (e ≡ provider_unavailable c.provider) ⊎ ((take_budget c.budget utc).0 ≡ some e)
unfolding admit
refused-reason c mono utc e p = ground arith

-- A refused call leaves the breaker as it was, its half-open trial included, and the budget with
-- nothing charged: also when the charge was made and the trial then lost to another caller. What is
-- raised is that the provider is unavailable, or what the budget raised.
pub admit_refused :
    (c : Client) (mono utc : ℕ) (e : RoutingError)
    → (admit c mono utc).0 ≡ some e
    → Uncharged c utc (admit c mono utc).1
      × ((e ≡ provider_unavailable c.provider) ⊎ ((take_budget c.budget utc).0 ≡ some e))
admit_refused c mono utc e p =
    (refused-Uncharged c mono utc e c.budget refl p, refused-reason c mono utc e p)
