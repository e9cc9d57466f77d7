-- ===== src/Routing/Tests/Calls.antt =====
-- The theorems of a provider's call at concrete inputs.
use crime_prevention_and_per.Prelude.{
  ℕ, ◌+◌, ◌≤◌, ◌<◌, ◌≡◌, refl, ◌⊎◌, true, false, Option, none, some, arith,
}
use crime_prevention_and_per.Routing.Errors.{
  RoutingError, no_route, provider_unavailable, status, valhalla_error,
}
use crime_prevention_and_per.Routing.Breaker.{CircuitBreaker, available, allow}
use crime_prevention_and_per.Routing.Budget.{DailyBudget}
use crime_prevention_and_per.Routing.Client.{
  Client, Body, unreadable, not_object, object, aborted, response, take_budget, admit, finish,
}
use crime_prevention_and_per.Routing.Client.Refusals.{Uncharged, admit_refused}
use crime_prevention_and_per.Routing.Client.Reports.{
  reported, settled, finish-reported, valhalla_error-lt,
}
use crime_prevention_and_per.Routing.Client.Trials.{Flight, was_admitted, trial_returns}
use crime_prevention_and_per.Routing.Client.Days.{calls-le-limit}
use crime_prevention_and_per.Routing.Client.Trials
use crime_prevention_and_per.Routing.Client.Days

-- Open since 100, a trial out, one call left of today's allowance.
abbrev half_open : CircuitBreaker
half_open = record {
  threshold = 3;
  cooldown = 30;
  failures = 3;
  opened_at = some 100;
  trial_out = true;
}

abbrev client : Client
client = record {
  provider = "geoapify";
  breaker = half_open;
  budget = some (record { limit = 2; provider = "geoapify"; day = 0; used = 1 });
}

admit_refused_example :
    Uncharged client 5 (admit client 140 5).1
    × ((provider_unavailable "geoapify" ≡ provider_unavailable client.provider)
        ⊎ ((take_budget client.budget 5).0 ≡ some (provider_unavailable "geoapify")))
admit_refused_example = admit_refused client 140 5 (provider_unavailable "geoapify") refused
  where
    refused : (admit client 140 5).0 ≡ some (provider_unavailable "geoapify")
    refused = unfold admit in refl

abbrev idle : Client
idle = record client { breaker = record half_open { trial_out = false } }

abbrev error_for : ℕ → Body ℕ → RoutingError
error_for status body = no_route "geoapify"

-- The trial goes out and is cancelled.
abbrev after_cancel : Flight
after_cancel = record {
  client = (finish {P = ℕ} error_for (admit idle 140 5).1 150 6 aborted).1;
  out = 0;
  reported = 0;
}

trial_returns_example :
    (allow after_cancel.client.breaker 160).0 ≡ available after_cancel.client.breaker 160
trial_returns_example =
    trial_returns error_for idle after_cancel 160 refl
      (Trials.next (Trials.next Trials.here (Trials.begin 140 5)) (Trials.end 0 150 6 aborted out))
      refl
  where
    out : 0 + was_admitted (admit idle 140 5).0 ≡ 1
    out = unfold admit in refl

abbrev unused : DailyBudget
unused = record { limit = 2; provider = "geoapify"; day = 0; used = 0 }

abbrev starting : Client
starting = record idle { budget = some unused }

abbrev one_out : Flight
one_out = record {
  client = (admit starting 140 5).1;
  out = 0 + was_admitted (admit starting 140 5).0;
  reported = 0;
}

calls-le-limit_example : one_out.out + one_out.reported ≤ 2
calls-le-limit_example =
    calls-le-limit error_for 0 2 starting unused one_out refl refl (omega arith)
      (Days.next Days.here (Trials.begin 140 5) (unfold Days.clock in refl))

-- Valhalla answers that there is no route: no failure of the provider's.
abbrev valhalla_error_for : ℕ → Body (Option ℕ) → RoutingError
valhalla_error_for status (object code) = valhalla_error code
valhalla_error_for status _ = valhalla_error none

finish-reported_example :
    let (result, c') = finish valhalla_error_for idle 150 6 (response 400 (object (some 442))) in
    (c'.breaker ≡ reported idle.breaker 150 result) × (c'.budget ≡ settled idle.budget 6 result)
finish-reported_example =
    finish-reported valhalla_error_for idle 150 6 (response 400 (object (some 442))) own
  where
    own : (code : ℕ) (body : Body (Option ℕ)) → status (valhalla_error_for code body) < 500
    own code unreadable = valhalla_error-lt none
    own code not_object = valhalla_error-lt none
    own code (object o) = valhalla_error-lt o
