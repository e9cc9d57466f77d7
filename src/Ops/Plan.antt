-- ===== src/Ops/Plan.antt =====
-- safety/ops.py, `plan_from_state` and what it calls: the steps that a city needs. The row of
-- `_STATE_SQL` is a record; instants are whole seconds since the epoch, dates day numbers. A reason
-- keeps which sentence it is, without the dates that are printed in it. `version` is
-- PIPELINE_VERSION, `minutes` the setting ops_history_minutes as it is printed.

pub mod Needs
pub mod Order
use crime_prevention_and_per.Prelude.{
  ltb, leb, if◌then◌else◌, String_eq, ◌==◌, ℕ, ◌/◌, String, Bool, true, false, not, ◌&&◌, ◌||◌,
  Option, none, some, List, [], ◌∷◌, ◌++◌,
}

-- `has_dow` may be missing from the row.
pub record State : Type 0 where
  pub last_incident_pull_at : Option ℕ
  pub has_census : Bool
  pub has_hourly : Bool
  pub has_dow : Option Bool
  pub has_clock_hours : Bool
  pub gold_refreshed_at : Option ℕ
  pub gold_pipeline_version : Option String
  pub history_enabled : Bool
  pub history_start_date : Option ℕ
  pub covered_from : Option ℕ

pub data Task : Type 0 where
  backfill census gold hourly history : Task

pub data Reason : Type 0 where
  no_pull : Reason
  no_census : Reason
  census_after_backfill : Reason
  census_pending : Reason
  no_snapshot : Reason
  other_pipeline : Reason
  pulled_since : Reason
  no_hourly : Reason
  no_dow : Reason
  history_short : Reason

pub record Step : Type 0 where
  pub task : Task
  pub city : String
  pub reason : Reason
  pub argv : List String

abbrev pub is_some {ℓ} : {A : Type ℓ} → Option A → Bool
is_some none = false
is_some (some _) = true

abbrev pub is_version : String → Option String → Bool
is_version version none = false
is_version version (some built_by) = built_by == version

-- `_gold_reason`
unfoldable pub gold_reason : String → State → Bool → Option Reason
gold_reason version s true = some census_pending
gold_reason version s false = elim s.gold_refreshed_at [
  | none ↦ some no_snapshot
  | some refreshed ↦
      if is_version version s.gold_pipeline_version
      then elim s.last_incident_pull_at [
        | none ↦ none
        | some pulled ↦ if ltb refreshed pulled then some pulled_since else none
      ]
      else some other_pipeline
]

-- `_history_reason`
unfoldable pub history_reason : State → Option Reason
history_reason s =
    if s.history_enabled
    then elim s.history_start_date [
      | none ↦ none
      | some start ↦ elim s.covered_from [
        | none ↦ none
        | some covered ↦ if leb (covered / 86_400) start then none else some history_short
      ]
    ]
    else none

-- `state.get("has_dow", True)`
abbrev pub dow_built : State → Bool
dow_built s = elim s.has_dow [ none ↦ true | some b ↦ b ]

unfoldable pub needs_backfill : State → Bool
needs_backfill s = not (is_some s.last_incident_pull_at)

unfoldable pub needs_hourly : State → Bool
unfolding needs_backfill
needs_hourly s =
    (not s.has_hourly && (s.has_clock_hours || needs_backfill s))
    || (s.has_hourly && not (dow_built s))

unfoldable pub needs_gold : String → State → Option Reason
unfolding needs_backfill gold_reason
needs_gold version s =
    if needs_backfill s
    then (if s.has_census then none else some census_after_backfill)
    else gold_reason version s (not s.has_census)

-- `fold_hourly_into`
pub data Fold : Type 0 where
  nowhere into_gold into_backfill : Fold

unfoldable pub fold_hourly : String → State → Fold
unfolding needs_hourly needs_gold needs_backfill
fold_hourly version s =
    if needs_hourly s
    then (if is_some (needs_gold version s)
        then into_gold
        else if needs_backfill s && s.has_census
        then into_backfill
        else nowhere)
    else nowhere

abbrev pub into_gold? : Fold → Bool
into_gold? f = elim f [ into_gold ↦ true | _ ↦ false ]

abbrev pub into_backfill? : Fold → Bool
into_backfill? f = elim f [ into_backfill ↦ true | _ ↦ false ]

abbrev pub skip_hourly : String
skip_hourly = "--skip-hourly"

abbrev pub with_flag : Bool → List String → List String
with_flag folded argv = if folded then argv else argv ++ skip_hourly ∷ []

module _ (version minutes : String) (s : State) (city : String) where
  unfoldable pub backfill_steps : List Step
  unfolding needs_backfill fold_hourly
  backfill_steps =
      if needs_backfill s
      then record {
        task = backfill;
        city = city;
        reason = no_pull;
        argv =
            with_flag (into_backfill? (fold_hourly version s)) ("backfill" ∷ "--city" ∷ city ∷ []);
      }
        ∷ []
      else []

  unfoldable pub census_steps : List Step
  census_steps =
      if s.has_census
      then []
      else record {
        task = census;
        city = city;
        reason = no_census;
        argv = "census" ∷ "--city" ∷ city ∷ [];
      }
        ∷ []

  unfoldable pub gold_steps : List Step
  unfolding needs_gold fold_hourly
  gold_steps = elim (needs_gold version s) [
    | none ↦ []
    | some why ↦
        record {
          task = gold;
          city = city;
          reason = why;
          argv = with_flag (into_gold? (fold_hourly version s)) ("gold" ∷ "--city" ∷ city ∷ []);
        }
        ∷ []
  ]

  unfoldable pub hourly_steps : List Step
  unfolding needs_hourly fold_hourly
  hourly_steps =
      if needs_hourly s
        && (not (into_gold? (fold_hourly version s))
            && not (into_backfill? (fold_hourly version s)))
      then record {
        task = hourly;
        city = city;
        reason = if s.has_hourly then no_dow else no_hourly;
        argv = "hourly" ∷ "--city" ∷ city ∷ [];
      }
        ∷ []
      else []

  unfoldable pub history_steps : List Step
  unfolding needs_backfill history_reason
  history_steps = elim (history_reason s) [
    | none ↦ []
    | some why ↦
        if needs_backfill s
        then []
        else record {
          task = history;
          city = city;
          reason = why;
          argv = "history" ∷ "--city" ∷ city ∷ "--max-minutes" ∷ minutes ∷ [];
        }
          ∷ []
  ]

  unfoldable pub plan_from_state : List Step
  unfolding backfill_steps census_steps gold_steps hourly_steps history_steps
  plan_from_state =
      backfill_steps ++ (census_steps ++ (gold_steps ++ (hourly_steps ++ history_steps)))

-- `advisories`: whether the one note applies
unfoldable pub cannot_build_hourly : State → Bool
cannot_build_hourly s =
    is_some s.last_incident_pull_at && (not s.has_hourly && not s.has_clock_hours)
