-- ===== src/Migrate/Lock/Waits.antt =====
-- safety/migrate.py, `migration_lock`: how long a run waits, and how the wait ends.
use crime_prevention_and_per.Prelude.{
  ltb, all_below, ℕ, zero, suc, ◌+◌, ◌*◌, ◌≤◌, ◌≡◌, refl, Bool, true, false, not, ◌&&◌, arith,
}
use crime_prevention_and_per.Migrate.Lock.{Wait, acquired, timed_out, undecided, poll}

module _ (free : ℕ → Bool) (clock : ℕ → ℕ) (deadline : ℕ) where
  -- Every try before the n-th found the lock taken and the deadline ahead.
  abbrev pub waited : ℕ → Bool
  waited n = all_below n (λ m. not (free m) && ltb (clock m) deadline)

  -- The wait ends at the first try that finds the lock free or the deadline past.
  abbrev pub Decides : Wait → Type 0
  Decides (acquired n) = (waited n ≡ true) × (free n ≡ true)
  Decides (timed_out n) = (waited n ≡ true) × (free n ≡ false) × (deadline ≤ clock n)
  Decides undecided = ⊥

  poll-Decides :
      (fuel n k : ℕ)
      → fuel + n ≡ suc k
      → deadline ≤ clock k
      → waited n ≡ true
      → Decides (poll free clock deadline fuel n)
  unfolding poll
  poll-Decides zero n k total late so_far = ground arith
  poll-Decides (suc fuel) n k total late so_far =
      ground (arith, poll-Decides fuel (suc n) k (omega arith) late)

-- If each try ends an interval after the one before it, as many tries as go into the wait, and one
-- more, decide it: the run gets the lock at the first try that finds it free, unless an earlier try
-- ended past the deadline, and then it stops there.
pub poll_lem :
    (free : ℕ → Bool) (clock : ℕ → ℕ) (start wait interval k : ℕ)
    → ((n : ℕ) → start + n * interval ≤ clock n)
    → wait ≤ k * interval
    → Decides free clock (start + wait) (poll free clock (start + wait) (suc k) 0)
poll_lem free clock start wait interval k paced enough =
    poll-Decides free clock (start + wait) (suc k) 0 k (omega arith) (omega (arith, paced k)) refl
