-- ===== src/Routing/Throttle/Intervals.antt =====
-- A client that was let through is held back for the interval, however busy the others are.
use crime_prevention_and_per.Routing.Errors.{too_soon}
use crime_prevention_and_per.OrderedDict.{lookup, IsDistinct}
use crime_prevention_and_per.Prelude.{
  ltb, if◌then◌else◌, length, All, ◌==◌, String_eq, ℕ, suc, ◌+◌, ◌-◌, ◌<◌, max, String, ◌≡◌, refl,
  sym, subst, ◌∙◌, ◌⊎◌, inl, inr, false, Option, none, some, List, [], ◌∷◌, arith,
}
use crime_prevention_and_per.OrderedDict.Touch.{
  touch, Recent, lookup-Recent, Recent-touch_self, Recent-remove, Recent-touch_ne, Recent-weaken,
}
use crime_prevention_and_per.Routing.Throttle.{ClientThrottle, ceil_seconds, check, forget}

-- What other clients do in between: a call that is checked, or the undoing of one.
pub data Use : Type 0 where
  checked : String → ℕ → Use
  forgotten : String → Use

abbrev pub client : Use → String
client (checked key _) = key
client (forgotten key) = key

unfoldable pub step : ClientThrottle → Use → ClientThrottle
step t (checked key now) = (check t key now).1
step t (forgotten key) = forget t key

unfoldable pub run : ClientThrottle → List Use → ClientThrottle
run t [] = t
run t (u ∷ us) = run (step t u) us

abbrev IsHeld : String → ℕ → ℕ → ClientThrottle → Type 0
IsHeld key now n t = Recent key now n t.last

last-check :
    (t : ClientThrottle) (key : String) (now : ℕ)
    → ((check t key now).1.last ≡ touch t.maxsize key now t.last) ⊎ ((check t key now).1 ≡ t)
unfolding check
last-check t key now = ground arith

settings-check :
    (t : ClientThrottle) (key : String) (now : ℕ)
    → ((check t key now).1.maxsize ≡ t.maxsize) × ((check t key now).1.interval ≡ t.interval)
unfolding check
settings-check t key now = ground arith

settings-step :
    (t : ClientThrottle) (u : Use)
    → ((step t u).maxsize ≡ t.maxsize) × ((step t u).interval ≡ t.interval)
unfolding step forget
settings-step t (checked key now) = settings-check t key now
settings-step t (forgotten key) = (refl, refl)

step-IsHeld :
    (key : String) (now n : ℕ) (t : ClientThrottle) (u : Use)
    → (key == client u) ≡ false
    → suc n < t.maxsize
    → IsHeld key now n t
    → IsHeld key now (suc n) (step t u)
unfolding step forget
step-IsHeld key now n t (checked other at) h room r = elim (last-check t other at) [
  | inl p ↦ subst (Recent key now (suc n)) (sym p) (Recent-touch_ne t.maxsize other at h room r)
  | inr p ↦ subst (IsHeld key now (suc n)) (sym p) (Recent-weaken r)
]
step-IsHeld key now n t (forgotten other) h room r = Recent-weaken (Recent-remove other h r)

run-IsHeld :
    (key : String) (now n : ℕ) (us : List Use) (t : ClientThrottle)
    → All (λ u. (key == client u) ≡ false) us
    → n + length us < t.maxsize
    → IsHeld key now n t
    → IsHeld key now (n + length us) (run t us) × ((run t us).interval ≡ t.interval)
unfolding run
run-IsHeld key now n [] t h room r =
    let e : n ≡ n + 0 = omega arith in (subst (λ m. IsHeld key now m t) e r, refl)
run-IsHeld key now n (u ∷ us) t h room r =
    let (m, i) = settings-step t u in
    let (held, j) =
      run-IsHeld key now (suc n) us (step t u) h.1 (omega arith)
        (step-IsHeld key now n t u h.0 (omega arith) r) in
    let e : suc n + length us ≡ n + suc (length us) = omega arith in
    (subst (λ k. IsHeld key now k (run (step t u) us)) e held, j ∙ i)

check-last :
    (t : ClientThrottle) (key : String) (now at : ℕ)
    → lookup key t.last ≡ some now
    → (check t key at).0 ≡ (
        if ltb at (now + t.interval)
        then some (too_soon (max 1 (ceil_seconds (now + t.interval - at))))
        else none)
unfolding check
check-last t key now at p = ground arith

check-IsHeld :
    (t : ClientThrottle) (key : String) (now : ℕ)
    → 0 < t.maxsize
    → IsDistinct t.last
    → (check t key now).0 ≡ none
    → IsHeld key now 0 (check t key now).1
unfolding check
check-IsHeld t key now room q p =
    subst (Recent key now 0) (recorded (lookup key t.last) refl)
      (Recent-touch_self t.maxsize key now t.last room q)
  where
    recorded :
        (o : Option ℕ)
        → lookup key t.last ≡ o
        → touch t.maxsize key now t.last ≡ (check t key now).1.last
    recorded none e = ground arith
    recorded (some seen) e = ground arith

-- A client is let through at `now`. Fewer than `maxsize` uses by other clients later, checks or
-- undoings, whatever they are told, its next check is refused before `now + interval`, with the
-- seconds that are left, rounded up and at least one; from then on it is let through.
pub check-check :
    (t : ClientThrottle) (key : String) (now at : ℕ) (us : List Use)
    → IsDistinct t.last
    → (check t key now).0 ≡ none
    → All (λ u. (key == client u) ≡ false) us
    → length us < t.maxsize
    → (check (run (check t key now).1 us) key at).0 ≡ (
        if ltb at (now + t.interval)
        then some (too_soon (max 1 (ceil_seconds (now + t.interval - at))))
        else none)
check-check t key now at us q p others room =
    let (m, i) = settings-check t key now in
    let (held, j) =
      run-IsHeld key now 0 us (check t key now).1 others (rw m (omega arith))
        (check-IsHeld t key now (omega arith) q p) in
    subst
      (λ pause. (check (run (check t key now).1 us) key at).0 ≡ (
        if ltb at (now + pause)
        then some (too_soon (max 1 (ceil_seconds (now + pause - at))))
        else none))
      (j ∙ i) (check-last (run (check t key now).1 us) key now at (lookup-Recent held))
