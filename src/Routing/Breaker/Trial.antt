-- ===== src/Routing/Breaker/Trial.antt =====
-- The open and half-open states: a pause of one cooldown, then one trial call at a time.
use crime_prevention_and_per.Prelude.{
  leb, if◌then◌else◌, any, ℕ, ◌+◌, ◌≤◌, ◌<◌, ◌≡◌, refl, true, false, some, List, [], ◌∷◌, arith,
}
use crime_prevention_and_per.Routing.Breaker.{CircuitBreaker, allow}
use crime_prevention_and_per.Routing.Breaker.States.{
  run, failing, failing-opens, failing-trial_back, cooldown-failing,
}

-- How many of the callers that ask at the given times, with no report in between, may call.
unfoldable pub granted : CircuitBreaker → List ℕ → ℕ
unfolding allow
granted b [] = 0
granted b (now ∷ nows) =
    let (ok, b') = allow b now in let rest = granted b' nows in if ok then rest + 1 else rest

trial_refuses :
    (b : CircuitBreaker) (t : ℕ) (nows : List ℕ)
    → b.opened_at ≡ some t
    → b.trial_out ≡ true
    → granted b nows ≡ 0
unfolding granted
trial_refuses b t [] o p = refl
trial_refuses b t (now ∷ nows) o p = ground (arith, trial_refuses b t nows o p)

granted_open :
    (c : CircuitBreaker) (opened pause : ℕ) (nows : List ℕ)
    → c.opened_at ≡ some opened
    → c.cooldown ≡ pause
    → c.trial_out ≡ false
    → granted c nows ≡ (if any (λ at. leb (opened + pause) at) nows then 1 else 0)
unfolding granted
granted_open c opened pause [] o e t = refl
granted_open c opened pause (now ∷ nows) o e t = ground (
  arith,
  granted_open c opened pause nows o e t,
  trial_refuses (record c { trial_out = true }) opened nows o refl,
)

-- After `threshold` failures in a row, the last one at `now`, a breaker is open, whatever it had
-- counted before. Of the callers that ask after that, at any times and with no report in between,
-- exactly one may call if any of them asks at `now + cooldown` or later, and none may otherwise.
pub failing-trial :
    (b : CircuitBreaker) (n now : ℕ) (nows : List ℕ)
    → 0 < n
    → b.threshold ≤ b.failures + n
    → granted (run b (failing n now)) nows
      ≡ (if any (λ at. leb (now + b.cooldown) at) nows then 1 else 0)
failing-trial b n now nows p h =
    granted_open (run b (failing n now)) now b.cooldown nows (failing-opens n now b h p)
      (cooldown-failing n now b) (failing-trial_back n now b p)
