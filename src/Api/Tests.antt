-- ===== src/Api/Tests.antt =====
-- The rate limiter's theorems at concrete inputs.
mod Layers
use crime_prevention_and_per.Prelude.{
  String_eq, pair_eq, ℕ, ◌+◌, ◌-◌, ◌*◌, ◌≤◌, String, ◌≡◌, refl, inl, inr, none, some, List, [], ◌∷◌,
  arith,
}
use crime_prevention_and_per.OrderedDict.{lookup}
use crime_prevention_and_per.Api.RateLimit.{token, zone_for, Buckets, consume, retry_seconds}
use crime_prevention_and_per.Api.RateLimit.Bucket.{retry_suffices}
use crime_prevention_and_per.Api.RateLimit.Bursts.{Request, allowed, spaced, allowed-le-burst}
use text.Mathlib.Text.{starts_with}

abbrev visitor : String × String
visitor = ("203.0.113.9", "directions")

-- A quarter of a token is left, and half a token accrues in a second.
abbrev nearly_empty : Buckets
nearly_empty = (visitor, (500, 1000)) ∷ []

retry_suffices_example :
    (consume
      (consume nearly_empty visitor 1 6 1000).1
      visitor
      1
      6
      (1000 + retry_seconds (1500, 1) * 1000)).0
    ≡ none
retry_suffices_example =
    retry_suffices nearly_empty visitor 1 6 1000 (1500, 1) (omega arith) (omega arith)
      (unfold lookup in refl, tt) refused
  where
    refused : (consume nearly_empty visitor 1 6 1000).0 ≡ some (1500, 1)
    refused = unfold consume in refl

abbrev request : ℕ → Request
request now = record { key = visitor; rate = 1; capacity = 6; now = now }

abbrev other_request : ℕ → Request
other_request now = record (request now) { key = ("198.51.100.2", "cells") }

abbrev later : List Request
later = request 2000 ∷ other_request 2500 ∷ request 3000 ∷ []

allowed-le-burst_example :
    allowed visitor nearly_empty (request 1000 ∷ later) * token ≤ 6 * token + 1 * (9000 - 1000)
allowed-le-burst_example =
    allowed-le-burst visitor 1 6 9000 nearly_empty (request 1000) later (unfold lookup in refl, tt)
      refl (inr (refl, refl), (inr (refl, refl), (inl refl, (inr (refl, refl), tt)))) (omega arith)
      (unfold spaced in refl)
