-- ===== src/Routing/Tests.antt =====
-- The theorems of the breaker, the budget and the throttle at concrete inputs, and runs of the
-- code.
mod Calls
mod Routes
mod Caches
use crime_prevention_and_per.Prelude.{
  ltb, leb, nat_eq, if◌then◌else◌, any, String_eq, ◌==◌, ℕ, ◌+◌, ◌-◌, ◌*◌, ◌%◌, ◌≤◌, max, String,
  ◌≡◌, refl, false, ◌||◌, none, some, List, [], ◌∷◌, map, arith,
}
use crime_prevention_and_per.OrderedDict.{lookup}
use crime_prevention_and_per.Routing.Errors.{too_soon}
use crime_prevention_and_per.Routing.Breaker.{CircuitBreaker}
use crime_prevention_and_per.Routing.Breaker.States.{failing}
use crime_prevention_and_per.Routing.Breaker.Trial.{granted, failing-trial}
use crime_prevention_and_per.Routing.Budget.{
  second_us, day_us, DailyBudget, today, seconds_until_reset,
}
use crime_prevention_and_per.Routing.Budget.Days.{Use, take_one, give_back, at}
use crime_prevention_and_per.Routing.Budget.Reset.{seconds_until_reset_lem}
use crime_prevention_and_per.Routing.Throttle.{ClientThrottle, ceil_seconds, check}
use crime_prevention_and_per.Routing.Throttle.Intervals.{check-check}
use crime_prevention_and_per.Routing.Polyline.{
  Decimal, decode, zigzag, round_half_even, rounded, rounded_point, encode,
}
use crime_prevention_and_per.Routing.Polyline.RoundTrip.{AreShort, IsDecoded, decode-encode}
use crime_prevention_and_per.Routing.Breaker
use crime_prevention_and_per.Routing.Breaker.States
use crime_prevention_and_per.Routing.Budget.Days
use crime_prevention_and_per.Routing.Throttle.Intervals
use crime_prevention_and_per.Prelude.Int.{pos, negsuc, ◌-ℤ◌}

-- Three failures to open, and a pause of thirty ticks, as providers.py has it.
abbrev fresh : CircuitBreaker
fresh = record { threshold = 3; cooldown = 30; failures = 1; opened_at = none; trial_out = false }

failing-trial_example :
    granted (States.run fresh (failing 2 100)) (110 ∷ 131 ∷ 132 ∷ [])
    ≡ (if any (λ at. leb (100 + fresh.cooldown) at) (110 ∷ 131 ∷ 132 ∷ []) then 1 else 0)
failing-trial_example = failing-trial fresh 2 100 (110 ∷ 131 ∷ 132 ∷ []) (omega arith) (omega arith)

abbrev two_calls : DailyBudget
two_calls = record { limit = 2; provider = "geoapify"; day = 0; used = 0 }

abbrev uses : List Use
uses = take_one 5 5 ∷ take_one 6 6 ∷ give_back 7 ∷ take_one 8 8 ∷ take_one 9 9 ∷ []

-- Half a second past 23:00: after the 3599 seconds that are told it is still the same day.
seconds_until_reset_lem_example :
    let now : ℕ = 82_800_500_000 in
    let s = seconds_until_reset now in
    (1 ≤ s)
    × (s ≤ 86_400)
    × (today (now + (s + 1) * second_us) ≡ today now + 1)
    × (today (now + s * second_us) ≡ (
        if nat_eq (now % second_us) 0 || leb day_us (now % day_us + second_us)
        then today now + 1
        else today now))
seconds_until_reset_lem_example = seconds_until_reset_lem 82_800_500_000

too_early : today (82_800_500_000 + seconds_until_reset 82_800_500_000 * second_us) ≡ 0
unfolding seconds_until_reset
too_early = refl

abbrev throttle : ClientThrottle
throttle = record { interval = 2000; maxsize = 3; last = [] }

check-check_example :
    (check (Intervals.run (check throttle "a" 100).1 (Intervals.checked "b" 700 ∷ [])) "a" 900).0
    ≡ (if ltb 900 (100 + throttle.interval)
        then some (too_soon (max 1 (ceil_seconds (100 + throttle.interval - 900))))
        else none)
check-check_example =
    check-check throttle "a" 100 900 (Intervals.checked "b" 700 ∷ []) tt open_at_first
      (other_client, tt) (omega arith)
  where
    other_client : ◌==◌ {K = String} "a" "b" ≡ false
    other_client = refl

    open_at_first : (check throttle "a" 100).0 ≡ none
    open_at_first = unfold check lookup in refl

-- From (38.5, -120.2) to (40.7000049, -119.95), which has more places than are encoded.
abbrev path : List (Decimal × Decimal)
path =
    (record { mantissa = pos 385; places = 1 }, record { mantissa = negsuc 1201; places = 1 })
    ∷ (
      record { mantissa = pos 407_000_049; places = 7 },
      record { mantissa = negsuc 11_994; places = 2 },
    )
    ∷ []

path_at_5 :
    map (rounded_point 5) path
    ≡ (pos 3_850_000, negsuc 12_019_999) ∷ (pos 4_070_000, negsuc 11_994_999) ∷ []
unfolding rounded round_half_even
path_at_5 = refl

decode-encode_example : IsDecoded 5 path (decode (encode path 5) 5)
decode-encode_example = decode-encode path 5 (omega arith) (omega arith) short
  where
    short : AreShort (pos 0) (pos 0) (map (rounded_point 5) path)
    short = unfold zigzag ◌-ℤ◌ rounded round_half_even in omega arith
