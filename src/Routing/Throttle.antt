-- ===== src/Routing/Throttle.antt =====
-- safety/routing/service.py, `ClientThrottle`: at most one call per `interval` for each client.
-- Times are milliseconds of the monotonic clock, so that `math.ceil` of a number of seconds is a
-- rounded-up division. `now - last < interval` is written `now < last + interval`, and
-- `interval - (now - last)` is `last + interval - now`, also for a reading before the last one.
pub mod Intervals
use crime_prevention_and_per.Prelude.{
  ltb, if◌then◌else◌, String_eq, ℕ, ◌+◌, ◌-◌, ◌/◌, max, String, Option, none, some,
}
use crime_prevention_and_per.OrderedDict.{lookup, remove, Dict}
use crime_prevention_and_per.OrderedDict.Touch.{touch}
use crime_prevention_and_per.Routing.Errors.{RoutingError, too_soon}

pub record ClientThrottle : Type 0 where
  pub interval : ℕ
  pub maxsize : ℕ
  pub last : Dict String ℕ

abbrev pub second_ms : ℕ
second_ms = 1000

-- `math.ceil` of a time, in whole seconds
abbrev pub ceil_seconds : ℕ → ℕ
ceil_seconds ms = (ms + 999) / second_ms

abbrev record_call : ClientThrottle → String → ℕ → ClientThrottle
record_call t key now = record t { last = touch t.maxsize key now t.last }

-- `check`: the error that is raised, or none
unfoldable pub check : ClientThrottle → String → ℕ → Option RoutingError × ClientThrottle
check t key now = elim (lookup key t.last) [
  | none ↦ (none, record_call t key now)
  | some seen ↦
      if ltb now (seen + t.interval)
      then (some (too_soon (max 1 (ceil_seconds (seen + t.interval - now)))), t)
      else (none, record_call t key now)
]

unfoldable pub forget : ClientThrottle → String → ClientThrottle
forget t key = record t { last = remove key t.last }
