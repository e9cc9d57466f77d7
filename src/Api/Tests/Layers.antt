-- ===== src/Api/Tests/Layers.antt =====
-- The stamped cache's theorems at concrete inputs: keys are city numbers, values their own sizes.
use crime_prevention_and_per.Prelude.{
  pair_eq, ℕ_eq, String_eq, ℕ, ◌≤◌, String, ◌≡◌, refl, true, some, [], arith,
}
use crime_prevention_and_per.OrderedDict.{lookup, remove, put, IsDistinct}
use crime_prevention_and_per.Api.StampedCache.{empty, serve, enter, complete}
use crime_prevention_and_per.Api.StampedCache.Bounds.{IsValid}
use crime_prevention_and_per.Api.StampedCache.Turns.{Threads, began, live, planned}
use crime_prevention_and_per.Api.StampedCache.Threads.{
  start, budgets_hold, one_leader, served_fresh,
}
use crime_prevention_and_per.Api.StampedCache.Turns

abbrev bytes_of : ℕ → ℕ
bytes_of n = n

-- Producers return layers of at least two bytes.
abbrev Big : ℕ → String → ℕ → Type 0
Big k stamp v = 2 ≤ v

-- One thread leads for city 1, and finishes with a layer of six bytes.
abbrev asked : Threads ℕ ℕ
asked = record {
  cache = (enter (empty 10 2) 1 (some "mon") true).1;
  leaders = began (enter {K = ℕ} {V = ℕ} (empty 10 2) 1 (some "mon") true).0 1 (some "mon") [];
}

abbrev filled : Threads ℕ ℕ
filled = record {
  cache = complete bytes_of asked.cache 1 "mon" 6;
  leaders = remove (1, "mon") asked.leaders;
}

asked_first : lookup (1, "mon") asked.leaders ≡ some 0
unfolding enter empty lookup
asked_first = refl

filling : Turns.Reach bytes_of Big (start bytes_of Big 10 2) filled
filling =
    Turns.next (Turns.next Turns.here (Turns.ask 1 (some "mon") true))
      (Turns.finish 1 "mon" 0 6 asked_first (omega arith))

budgets_hold_example : IsValid bytes_of filled.cache
budgets_hold_example = budgets_hold bytes_of Big 10 2 filled (omega arith) filling

one_leader_example :
    IsDistinct filled.leaders
    × ((enter filled.cache 1 (some "tue") true).0
        ≡ planned
            (live "tue" (lookup 1 filled.cache.entries))
            (lookup (1, "tue") filled.leaders)
            filled.cache.next_future)
one_leader_example = one_leader bytes_of Big 10 2 filled 1 "tue" filling

served : (enter filled.cache 1 (some "mon") true).0 ≡ serve 6
unfolding enter complete empty lookup put remove
served = refl

served_fresh_example : Big 1 "mon" 6
served_fresh_example = served_fresh bytes_of Big 10 2 filled 1 "mon" 6 filling served
