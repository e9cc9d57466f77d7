-- ===== src/Ops/Plan/Order.antt =====
-- The order of a plan's steps, and who builds the time-of-day layers.
use crime_prevention_and_per.Prelude.{
  if◌then◌else◌, String_eq, elem, ℕ, suc, ◌≤◌, String, ◌≡◌, sym, subst, List, [], ◌∷◌, ◌++◌,
  append-nil, arith,
}
use crime_prevention_and_per.Ops.Plan.{
  State, Task, backfill, census, gold, hourly, history, Step, skip_hourly, backfill_steps,
  census_steps, gold_steps, hourly_steps, history_steps, plan_from_state,
}

-- What a step must come after: the order of onboarding.
abbrev pub rank : Task → ℕ
rank backfill = 0
rank census = 1
rank gold = 2
rank hourly = 3
rank history = 4

-- Ranks from `n` up, each at most once.
abbrev pub Rising : ℕ → List Step → Type 0
Rising n [] = Unit
Rising n (x ∷ xs) = (n ≤ rank x.task) × Rising (suc (rank x.task)) xs

abbrev Single : ℕ → List Step → Type 0
Single k [] = Unit
Single k (x ∷ []) = rank x.task ≡ k
Single k (x ∷ y ∷ xs) = ⊥

Rising-weaken : (n k : ℕ) (xs : List Step) → n ≤ k → Rising k xs → Rising n xs
Rising-weaken n k [] h r = tt
Rising-weaken n k (x ∷ xs) h r = (omega arith, r.1)

Rising-prepend :
    (n k : ℕ) (xs ys : List Step) → n ≤ k → Single k xs → Rising (suc k) ys → Rising n (xs ++ ys)
Rising-prepend n k [] ys h o r = Rising-weaken n (suc k) ys (omega arith) r
Rising-prepend n k (x ∷ []) ys h o r = (omega arith, subst (λ j. Rising (suc j) ys) (sym o) r)
Rising-prepend n k (x ∷ y ∷ xs) ys h o r = absurd o

-- Does this step build the time-of-day layers: `hourly`, or a `backfill` or `gold` without the
-- flag?
abbrev pub builds_hourly : Step → ℕ
builds_hourly x = elim x.task [
  | hourly ↦ 1
  | census ↦ 0
  | history ↦ 0
  | _ ↦ if elem skip_hourly x.argv then 0 else 1
]

module _ (version minutes : String) (s : State) (city : String) where
  backfill-Single : Single 0 (backfill_steps version minutes s city)
  unfolding backfill_steps
  backfill-Single = ground arith

  census-Single : Single 1 (census_steps version minutes s city)
  unfolding census_steps
  census-Single = ground arith

  gold-Single : Single 2 (gold_steps version minutes s city)
  unfolding gold_steps
  gold-Single = ground arith

  hourly-Single : Single 3 (hourly_steps version minutes s city)
  unfolding hourly_steps
  hourly-Single = ground arith

  history-Single : Single 4 (history_steps version minutes s city)
  unfolding history_steps
  history-Single = ground arith

  -- Whatever the state: a plan's steps come in the order backfill, census, gold, hourly, history,
  -- each at most once.
  pub plan_from_state-Rising : Rising 0 (plan_from_state version minutes s city)
  unfolding plan_from_state
  plan_from_state-Rising =
      let last = history_steps version minutes s city in
      let late = hourly_steps version minutes s city ++ last in
      let mid = gold_steps version minutes s city ++ late in
      let rest = census_steps version minutes s city ++ mid in
      Rising-prepend 0 0 (backfill_steps version minutes s city) rest (omega arith) backfill-Single
        (Rising-prepend 1 1 (census_steps version minutes s city) mid (omega arith) census-Single (
          Rising-prepend 2 2 (gold_steps version minutes s city) late (omega arith) gold-Single (
            Rising-prepend 3 3 (hourly_steps version minutes s city) last (omega arith)
              hourly-Single
              (subst (Rising 4) (append-nil last)
                (Rising-prepend 4 4 last [] (omega arith) history-Single tt)))))
