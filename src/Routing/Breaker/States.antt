-- ===== src/Routing/Breaker/States.antt =====
-- The states of a breaker: closed below the threshold, open, half open with its trial out.
use crime_prevention_and_per.Prelude.{
  ℕ, zero, suc, ◌+◌, ◌≤◌, ◌<◌, ◌≡◌, refl, ◌∙◌, ◌⊎◌, inl, inr, true, false, some, List, [], ◌∷◌,
  arith,
}
use crime_prevention_and_per.Routing.Breaker.{
  CircuitBreaker, init, allow, record_success, release, is_some, record_failure,
}

-- Any history of calls and reports, with the clock's reading at each.
pub data Call : Type 0 where
  ask : ℕ → Call
  succeed : Call
  hand_back : Call
  fail : ℕ → Call

unfoldable pub step : CircuitBreaker → Call → CircuitBreaker
unfolding allow record_success release record_failure
step b (ask now) = (allow b now).1
step b succeed = record_success b
step b hand_back = release b
step b (fail now) = record_failure b now

unfoldable pub run : CircuitBreaker → List Call → CircuitBreaker
run b [] = b
run b (c ∷ cs) = run (step b c) cs

-- A closed breaker has seen fewer failures than the threshold, and only an open one has a trial
-- out.
pub record IsValid (b : CircuitBreaker) : Type 0 where
  pub below : (is_some b.opened_at ≡ true) ⊎ (b.failures < b.threshold)
  pub trial : (b.trial_out ≡ false) ⊎ (is_some b.opened_at ≡ true)

init-IsValid : (threshold cooldown : ℕ) → 0 < threshold → IsValid (init threshold cooldown)
unfolding init
init-IsValid threshold cooldown h = record { below = inr h; trial = inl refl }

step-IsValid : (b : CircuitBreaker) (c : Call) → 0 < b.threshold → IsValid b → IsValid (step b c)
unfolding step
step-IsValid b (ask now) h v = record { below = ground arith; trial = ground arith }
step-IsValid b succeed h v = record { below = inr h; trial = inl refl }
step-IsValid b hand_back h v = record { below = v.below; trial = inl refl }
step-IsValid b (fail now) h v = record { below = ground arith; trial = ground arith }

threshold-step : (b : CircuitBreaker) (c : Call) → (step b c).threshold ≡ b.threshold
unfolding step
threshold-step b (ask now) = ground arith
threshold-step b succeed = refl
threshold-step b hand_back = refl
threshold-step b (fail now) = ground arith

run-IsValid :
    (b : CircuitBreaker) (cs : List Call) → 0 < b.threshold → IsValid b → IsValid (run b cs)
unfolding run
run-IsValid b [] h v = v
run-IsValid b (c ∷ cs) h v =
    run-IsValid (step b c) cs (rw (threshold-step b c) h) (step-IsValid b c h v)

-- Whatever calls and reports came before, in any order: a breaker that is closed has counted fewer
-- than `threshold` failures since its last success, and a half-open trial is only ever out while
-- the breaker is open. The threshold is at least 1.
pub history-IsValid :
    (threshold cooldown : ℕ) (cs : List Call)
    → 0 < threshold
    → IsValid (run (init threshold cooldown) cs)
history-IsValid threshold cooldown cs h =
    run-IsValid (init threshold cooldown) cs (unfold init in h) (init-IsValid threshold cooldown h)

-- `n` failures in a row, the clock reading `now` at the last.
unfoldable pub failing : ℕ → ℕ → List Call
failing zero now = []
failing (suc n) now = fail now ∷ failing n now

cooldown-record_failure :
    (b : CircuitBreaker) (now : ℕ) → (record_failure b now).cooldown ≡ b.cooldown
unfolding record_failure
cooldown-record_failure b now = ground arith

pub failing-opens :
    (n now : ℕ) (b : CircuitBreaker)
    → b.threshold ≤ b.failures + n
    → 0 < n
    → (run b (failing n now)).opened_at ≡ some now
unfolding run failing step
failing-opens zero now b h p = absurd (omega arith)
failing-opens (suc zero) now b h p = ground arith
failing-opens (suc (suc n)) now b h p =
    failing-opens (suc n) now (record_failure b now) (ground arith) (omega arith)

pub failing-trial_back :
    (n now : ℕ) (b : CircuitBreaker) → 0 < n → (run b (failing n now)).trial_out ≡ false
unfolding run failing step
failing-trial_back zero now b p = absurd (omega arith)
failing-trial_back (suc zero) now b p = ground arith
failing-trial_back (suc (suc n)) now b p =
    failing-trial_back (suc n) now (record_failure b now) (omega arith)

pub cooldown-failing :
    (n now : ℕ) (b : CircuitBreaker) → (run b (failing n now)).cooldown ≡ b.cooldown
unfolding run failing step
cooldown-failing zero now b = refl
cooldown-failing (suc n) now b =
    cooldown-failing n now (record_failure b now) ∙ cooldown-record_failure b now
