-- ===== src/Api/RateLimit/Bucket.antt =====
-- One bucket: what a refused client is told.
use native.Mathlib.Nat.{div-add-mod', mod-lt}
use crime_prevention_and_per.Prelude.{
  leb, leb→le, Bool-cases, String_eq, pair_eq, ℕ, ◌+◌, ◌-◌, ◌*◌, ◌/◌, ◌≤◌, ◌<◌, max, String, ◌≡◌,
  refl, sym, ap, subst, inl, inr, none, some, arith,
}
use crime_prevention_and_per.OrderedDict.{lookup, IsDistinct}
use crime_prevention_and_per.OrderedDict.Touch.{touch, lookup-Recent, Recent-touch_self}
use crime_prevention_and_per.Api.RateLimit.{
  token, Buckets, max_tracked, bucket_of, refill, consume, retry_seconds,
}

module _ (d : Buckets) (key : String × String) (rate capacity now : ℕ) where
  -- the tokens that a request finds
  abbrev pub level : ℕ
  level = refill (bucket_of (lookup key d) capacity now) rate capacity now

  pub consume_refused :
      level < token
      → consume d key rate capacity now
        ≡ (some (token - level, rate), touch max_tracked key (level, now) d)
  unfolding consume
  consume_refused h = ground arith

  pub consume_allowed :
      token ≤ level
      → consume d key rate capacity now ≡ (none, touch max_tracked key (level - token, now) d)
  unfolding consume
  consume_allowed h = ground arith

refill_after :
    (level rate capacity now wait : ℕ)
    → 1 ≤ capacity
    → 1 ≤ rate
    → token ≤ level + wait * rate
    → token ≤ refill (level, now) rate capacity (now + wait)
unfolding refill
refill_after level rate capacity now wait c r h =
    let e : now + wait - now ≡ wait = omega arith in
    let m : token ≤ capacity * token = omega arith in rw e (omega arith)

-- A ceiling division times its divisor.
ceil_times : (missing step : ℕ) → 1 ≤ step → missing ≤ (missing + (step - 1)) / step * step
ceil_times missing step h =
    omega
      (arith, div-add-mod' (missing + (step - 1)) step, mod-lt (missing + (step - 1)) {m = step} h)

retry_covers : (missing rate : ℕ) → 1 ≤ rate → missing ≤ retry_seconds (missing, rate) * 1000 * rate
unfolding retry_seconds
retry_covers missing rate h =
    let step = rate * 1000 in
    let q = (missing + (step - 1)) / step in
    let covers = ceil_times missing step (omega arith) in
    let grows : q * step ≤ max 1 q * step = grind arith in omega arith

pub tracked_level :
    (d : Buckets) (key : String × String) (b : ℕ × ℕ) (rate capacity now : ℕ)
    → lookup key d ≡ some b
    → level d key rate capacity now ≡ refill b rate capacity now
unfolding bucket_of
tracked_level d key b rate capacity now p = rw p refl

-- A client with `found` tokens, less than one, once the missing ones have accrued.
after_wait :
    (d : Buckets) (key : String × String) (rate capacity now found : ℕ)
    → 1 ≤ capacity
    → 1 ≤ rate
    → IsDistinct d
    → found < token
    → let wait = retry_seconds (token - found, rate) * 1000 in
      (consume (touch max_tracked key (found, now) d) key rate capacity (now + wait)).0 ≡ none
after_wait d key rate capacity now found c r q h =
    let wait = retry_seconds (token - found, rate) * 1000 in
    let d' = touch max_tracked key (found, now) d in
    let here = lookup-Recent (Recent-touch_self max_tracked key (found, now) d (omega arith) q) in
    let covers = retry_covers (token - found) rate r in
    let enough = refill_after found rate capacity now wait c r (omega arith) in
    let full =
      subst (λ n. token ≤ n)
        (sym (tracked_level d' key (found, now) rate capacity (now + wait) here)) enough in
    ap (λ r. r.0) (consume_allowed d' key rate capacity (now + wait) full)

-- A client that is refused, and waits for as many seconds as it is told with no request of its own
-- in between, is let through then. The zone holds at least a token and refills.
pub retry_suffices :
    (d : Buckets) (key : String × String) (rate capacity now : ℕ) (wait : ℕ × ℕ)
    → 1 ≤ capacity
    → 1 ≤ rate
    → IsDistinct d
    → (consume d key rate capacity now).0 ≡ some wait
    → (consume
        (consume d key rate capacity now).1
        key
        rate
        capacity
        (now + retry_seconds wait * 1000)).0
      ≡ none
retry_suffices d key rate capacity now wait c r q p =
    elim (Bool-cases (leb token (level d key rate capacity now))) [
      | inl enough ↦
          let e = ap (λ x. x.0) (consume_allowed d key rate capacity now (leb→le _ _ enough)) in
          cc (e, p)
      | inr short ↦
          let found = level d key rate capacity now in
          let less : found < token = ground arith in
          let e = consume_refused d key rate capacity now less in
          let told : wait ≡ (token - found, rate) = cc (p, ap (λ x. x.0) e) in
          subst
            (λ w.
              (consume (consume d key rate capacity now).1 key rate capacity
                (now + retry_seconds w * 1000)).0
              ≡ none)
            (sym told)
            (subst
              (λ x.
                (consume x.1 key rate capacity (now + retry_seconds (token - found, rate) * 1000)).0
                ≡ none)
              (sym e) (after_wait d key rate capacity now found c r q less))
    ]
