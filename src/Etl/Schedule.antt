-- ===== src/Etl/Schedule.antt =====
-- safety/etl/run.py: which sources are due, and a command run over all of them. Times are
-- microseconds. A day's share of 0.8 is rounded up in floating point for a day, a week and two
-- weeks, so that there the share itself is not yet enough and a microsecond more is.
pub mod Due
use crime_prevention_and_per.Prelude.{
  ltb, nat_eq, if◌then◌else◌, keep, String_eq, ◌==◌, ℕ, ◌+◌, ◌*◌, ◌/◌, max, String, Bool, true,
  false, not, ◌&&◌, ◌||◌, Option, none, some, List, [], ◌∷◌, map,
}
use crime_prevention_and_per.Prelude.Int.{ℤ, pos, ◌-ℤ◌, leb_ℤ}
use crime_prevention_and_per.Prelude.Sorting.{text_le, sorted}

abbrev pub day_us : ℕ
day_us = 86_400_000_000

-- `_CADENCE_DAYS.get(cadence or "")`, times `_DUE_FRACTION`; none is a cadence that is not there
unfoldable pub threshold : Option String → Option ℕ
threshold none = none
threshold (some cadence) =
    if cadence == "daily"
    then some (day_us * 8 / 10 + 1)
    else if cadence == "weekly"
    then some (day_us * 56 / 10 + 1)
    else if cadence == "biweekly"
    then some (day_us * 112 / 10 + 1)
    else if cadence == "annual"
    then some (day_us * 292)
    else if cadence == "rolling"
    then some 0
    else none

-- `is_due`, of the time since the last look, which is negative for a look ahead of the clock
unfoldable pub is_due : Option String → Option ℤ → Bool
unfolding threshold
is_due cadence since_check = elim (threshold cadence) [
  | none ↦ true
  | some wait ↦ elim since_check [ none ↦ true | some age ↦ leb_ℤ (pos wait) age ]
]

pub data Mode : Type 0 where
  backfill incremental history reference : Mode

pub data PullStatus : Type 0 where
  running succeeded no_new_data failed blocked : PullStatus

-- a row of etl.pull_run
pub record Pull : Type 0 where
  pub source_id : String
  pub mode : Mode
  pub status : PullStatus
  pub started_at : ℕ

-- `_INCIDENT_MODES` and `_COMPLETED_STATUSES`
abbrev pub is_incident : Mode → Bool
is_incident mode = elim mode [ backfill ↦ true | incremental ↦ true | _ ↦ false ]

abbrev pub is_completed : PullStatus → Bool
is_completed status = elim status [ succeeded ↦ true | no_new_data ↦ true | _ ↦ false ]

abbrev pub is_look : String → Pull → Bool
is_look source_id p = p.source_id == source_id && is_incident p.mode && is_completed p.status

abbrev pub latest : Option ℕ → ℕ → Option ℕ
latest none t = some t
latest (some u) t = some (max u t)

-- `max(started_at)` of the source's completed looks
unfoldable pub last_checked_at : String → List Pull → Option ℕ
last_checked_at source_id [] = none
last_checked_at source_id (p ∷ pulls) =
    let rest = last_checked_at source_id pulls in
    if is_look source_id p then latest rest p.started_at else rest

-- a row of reference.source_registry
pub record Source : Type 0 where
  pub source_id : String
  pub expected_cadence : Option String
  pub enabled : Bool

-- `ORDER BY checks.last_checked_at ASC NULLS FIRST, r.source_id`
abbrev pub stalest : List Pull → Source → Source → Bool
stalest pulls a b = elim (last_checked_at a.source_id pulls) [
  | none ↦ elim (last_checked_at b.source_id pulls) [
    | none ↦ text_le a.source_id b.source_id
    | some _ ↦ true
  ]
  | some t ↦ elim (last_checked_at b.source_id pulls) [
    | none ↦ false
    | some u ↦ ltb t u || nat_eq t u && text_le a.source_id b.source_id
  ]
]

abbrev pub source_due : ℕ → List Pull → Source → Bool
source_due now pulls r =
    is_due r.expected_cadence
      (elim (last_checked_at r.source_id pulls) [ none ↦ none | some t ↦ some (pos now -ℤ pos t) ])

-- `enabled_sources`
unfoldable pub enabled_sources : ℕ → List Pull → List Source → Bool → List String
unfolding last_checked_at is_due sorted
enabled_sources now pulls registry due_only =
    let rows = sorted (stalest pulls) (keep (λ r. r.enabled) registry) in
    map (λ r. r.source_id) (if due_only then keep (source_due now pulls) rows else rows)

-- How a city's command ends.
pub data Ending : Type 0 where
  exits : ℕ → Ending
  raises : Ending

abbrev pub is_failure : Ending → Bool
is_failure (exits code) = not (nat_eq code 0)
is_failure raises = true

module _ {S : Type 0} (one : String → S → Ending × S) where
  -- the loop of `_fan_out`: the state after it, and the cities that failed
  unfoldable pub fan_each : List String → S → S × List String
  fan_each [] s = (s, [])
  fan_each (city ∷ cities) s =
      let rest = fan_each cities (one city s).1 in
      (rest.0, if is_failure (one city s).0 then city ∷ rest.1 else rest.1)

  -- `_fan_out`: the exit code and the state
  unfoldable pub fan_out : Bool → List String → S → ℕ × S
  unfolding fan_each
  fan_out due_only [] s = (if due_only then 0 else 1, s)
  fan_out due_only (city ∷ cities) s =
      let r = fan_each (city ∷ cities) s in (elim r.1 [ [] ↦ 0 | _ ↦ 1 ], r.0)
