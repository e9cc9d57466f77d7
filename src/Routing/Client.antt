-- ===== src/Routing/Client.antt =====
-- safety/routing/providers.py, `_Client._call`: one upstream call through the breaker and the
-- budget. The call runs on the event loop in two turns: `admit` is everything before the request's
-- `await`, `finish` everything after it, with what the transport (httpx, not under src/) answered.
-- Other calls may run between the two. A turn reads each clock once; `mono` is the monotonic clock
-- in ticks, `utc` the UTC clock in microseconds. The payload is any type; logging is left out.
pub mod Days
pub mod Refusals
pub mod Reports
pub mod Trials
use crime_prevention_and_per.Prelude.{
  ltb, leb, nat_eq, if◌then◌else◌, ℕ, String, Bool, not, ◌&&◌, ◌||◌, Option, none, some,
}
use crime_prevention_and_per.Routing.Errors.{
  RoutingError, provider_unavailable, provider_timeout, status,
}
use crime_prevention_and_per.Routing.Breaker.{
  CircuitBreaker, available, allow, record_success, release, record_failure,
}
use crime_prevention_and_per.Routing.Budget.{DailyBudget, charge, refund}

pub record Client : Type 0 where
  pub provider : String
  pub breaker : CircuitBreaker
  pub budget : Option DailyBudget

-- The body of an answer: not JSON, JSON that is no object, or an object.
pub data Body {ℓ} (P : Type ℓ) : Type ℓ where
  unreadable : Body P
  not_object : Body P
  object : P → Body P

-- What the request ends in: `httpx.TimeoutException`, another `httpx.HTTPError`, any other
-- exception (cancellation included), or a response.
pub data Reply {ℓ} (P : Type ℓ) : Type ℓ where
  timeout : Reply P
  http_error : Reply P
  aborted : Reply P
  response : ℕ → Body P → Reply P

pub data Result {ℓ} (P : Type ℓ) : Type ℓ where
  payload : P → Result P
  failed : RoutingError → Result P
  reraised : Result P

-- `self.budget.take()`, where there is a budget
unfoldable pub take_budget : Option DailyBudget → ℕ → Option RoutingError × Option DailyBudget
unfolding charge
take_budget none utc = (none, none)
take_budget (some b) utc = let (refused, b') = charge b utc utc in (refused, some b')

-- `self.budget.refund()`, where there is a budget
unfoldable pub refund_budget : Option DailyBudget → ℕ → Option DailyBudget
unfolding refund
refund_budget none utc = none
refund_budget (some b) utc = some (refund b utc)

-- `none` lets the call go out.
unfoldable pub admit : Client → ℕ → ℕ → Option RoutingError × Client
unfolding available allow take_budget refund_budget
admit c mono utc =
    if not (available c.breaker mono)
    then (some (provider_unavailable c.provider), c)
    else (let (refused, budget) = take_budget c.budget utc in
        elim refused [
          | some e ↦ (some e, record c { budget = budget })
          | none ↦
              let (ok, breaker) = allow c.breaker mono in
              if ok then (none, record c { breaker = breaker; budget = budget }) else (
                some (provider_unavailable c.provider),
                record c { breaker = breaker; budget = refund_budget budget utc },
              )
        ])

abbrev fail_call : Client → ℕ → Client
fail_call c mono = record c { breaker = record_failure c.breaker mono }

abbrev succeed_call : Client → Client
succeed_call c = record c { breaker = record_success c.breaker }

-- `status >= 500 or status == 429 or 300 <= status < 400`
unfoldable pub is_down : ℕ → Bool
is_down status = leb 500 status || nat_eq status 429 || (leb 300 status && ltb status 400)

module _ {ℓ} {P : Type ℓ} where
  -- The answer of a provider that is up; `error_for` is the provider's own `_error_for`.
  unfoldable pub read_answer :
      (ℕ → Body P → RoutingError) → Client → ℕ → ℕ → Body P → Result P × Client
  unfolding record_failure record_success
  read_answer error_for c mono status body =
      if leb 400 status then (failed (error_for status body), succeed_call c) else elim body [
        | object p ↦ (payload p, succeed_call c)
        | _ ↦ (failed (provider_unavailable c.provider), fail_call c mono)
      ]

  unfoldable pub finish : (ℕ → Body P → RoutingError) → Client → ℕ → ℕ → Reply P → Result P × Client
  unfolding is_down read_answer record_failure record_success release refund_budget
  finish error_for c mono utc timeout = (failed (provider_timeout c.provider), fail_call c mono)
  finish error_for c mono utc http_error =
      (failed (provider_unavailable c.provider), fail_call c mono)
  finish error_for c mono utc aborted =
      (reraised, record c { breaker = release c.breaker; budget = refund_budget c.budget utc })
  finish error_for c mono utc (response status body) =
      if is_down status
      then (failed (provider_unavailable c.provider), fail_call c mono)
      else read_answer error_for c mono status body
