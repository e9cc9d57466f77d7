-- ===== src/Routing/Client/Reports.antt =====
-- What an answer tells the caller, and what it tells the breaker.
use crime_prevention_and_per.Prelude.{
  leb, if◌then◌else◌, ℕ, ◌<◌, ◌≡◌, refl, Option, none, some, arith,
}
use crime_prevention_and_per.Routing.Errors.{RoutingError, status, valhalla_error}
use crime_prevention_and_per.Routing.Breaker.{
  CircuitBreaker, record_success, release, record_failure,
}
use crime_prevention_and_per.Routing.Budget.{DailyBudget}
use crime_prevention_and_per.Routing.Client.{
  Client, Body, unreadable, not_object, object, Reply, timeout, http_error, aborted, response,
  Result, payload, failed, reraised, refund_budget, finish,
}

-- What a result tells the breaker: a failure of the provider's, which the API answers by a 5xx, is
-- one more against it; an error of the request's own, like a payload, clears the count.
abbrev pub reported {ℓ} : {P : Type ℓ} → CircuitBreaker → ℕ → Result P → CircuitBreaker
reported b mono (payload p) = record_success b
reported b mono (failed e) = if leb 500 (status e) then record_failure b mono else record_success b
reported b mono reraised = release b

-- The budget of a call that ended so: only one that raised something else gives its charge back.
abbrev pub settled {ℓ} : {P : Type ℓ} → Option DailyBudget → ℕ → Result P → Option DailyBudget
settled o utc reraised = refund_budget o utc
settled o utc _ = o

module _ {ℓ} {P : Type ℓ} (error_for : ℕ → Body P → RoutingError) where
  -- However a request ends, the breaker is told of a failure exactly if the error that is raised
  -- answers 500 or above, and of a success if a payload or another error is returned; a cancelled
  -- call tells it nothing and has its charge refunded, and every other one stays charged. The
  -- provider's own errors answer below 500.
  pub finish-reported :
      (c : Client) (mono utc : ℕ) (reply : Reply P)
      → ((code : ℕ) (body : Body P) → status (error_for code body) < 500)
      → let (result, c') = finish error_for c mono utc reply in
        (c'.breaker ≡ reported c.breaker mono result) × (c'.budget ≡ settled c.budget utc result)
  unfolding finish status
  finish-reported c mono utc timeout own = (refl, refl)
  finish-reported c mono utc http_error own = (refl, refl)
  finish-reported c mono utc aborted own = (refl, refl)
  finish-reported c mono utc (response code unreadable) own = ground (arith, own code unreadable)
  finish-reported c mono utc (response code not_object) own = ground (arith, own code not_object)
  finish-reported c mono utc (response code (object p)) own = ground (arith, own code (object p))

pub valhalla_error-lt : (code : Option ℕ) → status (valhalla_error code) < 500
unfolding valhalla_error status
valhalla_error-lt none = omega arith
valhalla_error-lt (some code) = ground arith
