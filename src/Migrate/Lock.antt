-- ===== src/Migrate/Lock.antt =====
-- safety/migrate.py, `migration_lock`: polling for the advisory lock until a deadline. `free` says
-- whether the lock is free at the n-th try and `clock` is `time.monotonic` after it. The body of
-- the `with` is a function on the state; whether it raises or not, the lock is released.
pub mod Waits
use crime_prevention_and_per.Prelude.{leb, if◌then◌else◌, ℕ, zero, suc, ◌+◌, Bool}

pub data Wait : Type 0 where
  acquired : ℕ → Wait
  timed_out : ℕ → Wait
  undecided : Wait

-- the loop, from try `n`; it may go on for `fuel` tries
unfoldable pub poll : (ℕ → Bool) → (ℕ → ℕ) → ℕ → ℕ → ℕ → Wait
poll free clock deadline zero n = undecided
poll free clock deadline (suc fuel) n =
    let later = poll free clock deadline fuel (suc n) in
    if free n then acquired n else if leb deadline (clock n) then timed_out n else later

-- How a run under the lock ends: TimeoutError, or what the body makes of the state.
pub data Locked (S : Type 0) : Type 0 where
  refused : Locked S
  released : Bool → S → Locked S

unfoldable pub migration_lock :
    {S : Type 0} → (ℕ → Bool) → (ℕ → ℕ) → ℕ → ℕ → ℕ → (S → Bool × S) → S → Locked S
unfolding poll
migration_lock free clock start wait fuel body s = elim (poll free clock (start + wait) fuel 0) [
  | acquired n ↦ released (body s).0 (body s).1
  | _ ↦ refused
]
