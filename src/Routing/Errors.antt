-- ===== src/Routing/Errors.antt =====
-- safety/routing/errors.py: the ways a provider call can fail, each with the status, the code and
-- the retry time that the API answers, and `valhalla_error` of safety/routing/providers.py.
-- `reason` goes to the log only and is not modelled, nor are the visitor's messages but for what
-- they depend on: the service's label.
use crime_prevention_and_per.Prelude.{
  ltb, leb, nat_eq, if◌then◌else◌, ◌==◌, String_eq, ℕ, String, ◌&&◌, Option, none, some,
}

pub data Kind : Type 0 where
  location distance : Kind

pub data RoutingError : Type 0 where
  no_route : String → RoutingError
  out_of_coverage : Kind → String → RoutingError
  bad_request : String → RoutingError
  provider_unavailable : String → RoutingError
  provider_timeout : String → RoutingError
  budget_exhausted : String → ℕ → RoutingError
  too_soon : ℕ → RoutingError

-- the HTTP status of each class
unfoldable pub status : RoutingError → ℕ
status (no_route _) = 422
status (out_of_coverage _ _) = 422
status (bad_request _) = 400
status (provider_unavailable _) = 503
status (provider_timeout _) = 504
status (budget_exhausted _ _) = 503
status (too_soon _) = 429

-- `code`, with the `too_far` that an `OutOfCoverage("distance")` sets on itself
unfoldable pub error_code : RoutingError → String
error_code (no_route _) = "no_route"
error_code (out_of_coverage location _) = "out_of_coverage"
error_code (out_of_coverage distance _) = "too_far"
error_code (bad_request _) = "bad_request"
error_code (provider_unavailable _) = "provider_unavailable"
error_code (provider_timeout _) = "provider_timeout"
error_code (budget_exhausted _ _) = "budget_exhausted"
error_code (too_soon _) = "too_soon"

-- `retry_after`, a class attribute or the instance's own
unfoldable pub retry_after : RoutingError → Option ℕ
retry_after (provider_unavailable _) = some 30
retry_after (provider_timeout _) = some 5
retry_after (budget_exhausted _ seconds) = some seconds
retry_after (too_soon seconds) = some seconds
retry_after _ = none

-- `SERVICE_LABEL` and `_label`
unfoldable pub service_label : String → String
service_label provider =
    if provider == "valhalla"
    then "Street routing (driving, walking and cycling)"
    else if provider == "transitous"
    then "Transit routing"
    else if provider == "photon"
    then "Address search"
    else "The directions service"

-- `valhalla_error`; `none` is a payload with no integer `error_code`. A negative code falls through
-- to `NoRoute`, as does every code outside 100 to 199 but the two that are named.
unfoldable pub valhalla_error : Option ℕ → RoutingError
valhalla_error none = bad_request "valhalla"
valhalla_error (some code) =
    if nat_eq code 171
    then out_of_coverage location "valhalla"
    else if nat_eq code 154
    then out_of_coverage distance "valhalla"
    else if leb 100 code && ltb code 200
    then bad_request "valhalla"
    else no_route "valhalla"
