-- ===== src/Api/RateLimit.antt =====
-- safety/api/ratelimit.py: a token bucket for each client and zone.
-- Times are milliseconds of the monotonic clock. A token is 2000 units, so that each zone's rate is
-- a whole number of units per millisecond and no rounding occurs: 2.0, 0.5, 3.0 and 10.0 tokens per
-- second are 4, 1, 6 and 20.
pub mod Bucket
pub mod Bursts
use text.Mathlib.Text.{starts_with}
use crime_prevention_and_per.Prelude.{
  leb, if◌then◌else◌, ◌==◌, String_eq, pair_eq, ℕ, ◌+◌, ◌-◌, ◌*◌, ◌/◌, min, max, String, ◌||◌,
  Option, none, some,
}
use crime_prevention_and_per.OrderedDict.{lookup, Dict}
use crime_prevention_and_per.OrderedDict.Touch.{touch}

abbrev pub token : ℕ
token = 2000

pub record Zone : Type 0 where
  pub name : String
  pub rate : ℕ
  pub capacity : ℕ

-- `_zone_for`: exact paths first, then the prefix
unfoldable pub zone_for : String → Option Zone
zone_for path =
    if path == "/api/v1/cells"
    then some (record { name = "cells"; rate = 4; capacity = 10 })
    else if path == "/api/v1/directions"
    then some (record { name = "directions"; rate = 1; capacity = 6 })
    else if path == "/api/v1/geocode" || path == "/api/v1/geocode/reverse"
    then some (record { name = "geocode"; rate = 6; capacity = 10 })
    else if starts_with path "/api/v1/"
    then some (record { name = "api"; rate = 20; capacity = 20 })
    else none

-- A bucket's tokens and the time they were counted, for each client and zone.
abbrev pub Buckets : Type 0
Buckets = Dict (String × String) (ℕ × ℕ)

abbrev pub max_tracked : ℕ
max_tracked = 4096

-- `client_key`: `scope["client"]` is absent or has the address first
unfoldable pub client_key : Option String → String
client_key none = "unknown"
client_key (some host) = host

-- the bucket of a client that is not tracked is full
unfoldable pub bucket_of : Option (ℕ × ℕ) → ℕ → ℕ → ℕ × ℕ
bucket_of none capacity now = (capacity * token, now)
bucket_of (some b) capacity now = b

-- `min(float(capacity), tokens + (now - last) * rate)`
unfoldable pub refill : ℕ × ℕ → ℕ → ℕ → ℕ → ℕ
refill (tokens, last) rate capacity now = min (capacity * token) (tokens + (now - last) * rate)

-- `_consume`: the wait, as the units that are missing and the rate at which they accrue (`none` is
-- a wait of 0.0), and the buckets
unfoldable pub consume : Buckets → String × String → ℕ → ℕ → ℕ → Option (ℕ × ℕ) × Buckets
unfolding lookup bucket_of refill
consume d key rate capacity now =
    let tokens = refill (bucket_of (lookup key d) capacity now) rate capacity now in
    if leb token tokens
    then (none, touch max_tracked key (tokens - token, now) d)
    else (some (token - tokens, rate), touch max_tracked key (tokens, now) d)

-- What the middleware does with an ASGI call.
pub data Verdict : Type 0 where
  pass : Verdict
  too_many : ℕ → Verdict

-- `max(1, math.ceil(wait))`, in seconds: `missing / rate` milliseconds
unfoldable pub retry_seconds : ℕ × ℕ → ℕ
retry_seconds (missing, rate) = max 1 ((missing + (rate * 1000 - 1)) / (rate * 1000))

abbrev verdict : Option (ℕ × ℕ) → Verdict
verdict none = pass
verdict (some wait) = too_many (retry_seconds wait)

-- `__call__`; the scope's `type`, `path` and `client`
unfoldable pub middleware : Buckets → String → String → Option String → ℕ → Verdict × Buckets
unfolding zone_for client_key consume retry_seconds
middleware d scope_type path client now =
    if scope_type == "http"
    then elim (zone_for path) [
      | none ↦ (pass, d)
      | some z ↦
          let (wait, d') = consume d (client_key client, z.name) z.rate z.capacity now in
          (verdict wait, d')
    ]
    else (pass, d)
