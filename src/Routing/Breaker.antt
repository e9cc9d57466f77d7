-- ===== src/Routing/Breaker.antt =====
-- safety/routing/breaker.py: stop calling a provider that has just failed `threshold` times.
-- Times are whole ticks of the monotonic clock. `now - opened_at < cooldown` is written
-- `now < opened_at + cooldown`, which needs no subtraction. The lock makes each method one step.
pub mod States
pub mod Trial
use crime_prevention_and_per.Prelude.{
  ltb, leb, if◌then◌else◌, ℕ, ◌+◌, Bool, true, false, ◌||◌, Option, none, some,
}

pub record CircuitBreaker : Type 0 where
  pub threshold : ℕ
  pub cooldown : ℕ
  pub failures : ℕ
  pub opened_at : Option ℕ
  pub trial_out : Bool

pub init : ℕ → ℕ → CircuitBreaker
init threshold cooldown = record {
  threshold = threshold;
  cooldown = cooldown;
  failures = 0;
  opened_at = none;
  trial_out = false;
}

-- `self._opened_at is None or self._clock() - self._opened_at >= self.cooldown`
unfoldable pub available : CircuitBreaker → ℕ → Bool
available b now = elim b.opened_at [ none ↦ true | some t ↦ leb (t + b.cooldown) now ]

unfoldable pub allow : CircuitBreaker → ℕ → Bool × CircuitBreaker
allow b now = elim b.opened_at [
  | none ↦ (true, b)
  | some t ↦
      if ltb now (t + b.cooldown) || b.trial_out
      then (false, b)
      else (true, record b { trial_out = true })
]

unfoldable pub record_success : CircuitBreaker → CircuitBreaker
record_success b = record b { failures = 0; opened_at = none; trial_out = false }

unfoldable pub release : CircuitBreaker → CircuitBreaker
release b = record b { trial_out = false }

abbrev pub is_some {ℓ} : {A : Type ℓ} → Option A → Bool
is_some none = false
is_some (some _) = true

unfoldable pub record_failure : CircuitBreaker → ℕ → CircuitBreaker
record_failure b now =
    let failures = b.failures + 1 in
    if is_some b.opened_at || leb b.threshold failures
    then record b { failures = failures; trial_out = false; opened_at = some now }
    else record b { failures = failures; trial_out = false }
