-- ===== src/Ops/Tests.antt =====
-- The planner's theorems at concrete inputs: a city that was never loaded, and one left behind.
use crime_prevention_and_per.Prelude.{
  leb, if◌then◌else◌, keep, any, String_eq, ◌==◌, ◌+◌, String, ◌≡◌, refl, ◌↔◌, inr, Bool, true,
  false, not, ◌&&◌, ◌||◌, Option, none, some, List, [], ◌∷◌, map, arith,
}
use crime_prevention_and_per.Ops.Plan.{
  State, backfill, census, gold, no_snapshot, Step, skip_hourly, plan_from_state,
}
use crime_prevention_and_per.Ops.Plan.Needs.{IsUpToDate, plan_from_state-nil}
use crime_prevention_and_per.Ops.Ledger.{
  succeeded, Ledger, task_name, Block, cooldown_block, exited, run_step,
}
use crime_prevention_and_per.Ops.Ledger.Cooldown.{obstacle, run_step-cooldown}
use crime_prevention_and_per.Ops.Converge.{
  untouched, is_nil, tasks, converge_city, held, chosen, has_unknown, converge,
}
use crime_prevention_and_per.Ops.Converge.City.{before_stop, from_stop, Stopped, converge_city_lem}
use crime_prevention_and_per.Ops.Converge.Exit.{fails, converge-exit}

abbrev new_city : State
new_city = record {
  last_incident_pull_at = none;
  has_census = false;
  has_hourly = false;
  has_dow = some false;
  has_clock_hours = false;
  gold_refreshed_at = none;
  gold_pipeline_version = none;
  history_enabled = true;
  history_start_date = some 100;
  covered_from = none;
}

abbrev plan_of_new : List Step
plan_of_new = plan_from_state "3" "90" new_city "seattle"

new_city_tasks : tasks plan_of_new ≡ backfill ∷ census ∷ gold ∷ []
unfolding plan_from_state
new_city_tasks = refl

plan_from_state-nil_example : (plan_of_new ≡ []) ↔ IsUpToDate "3" new_city
plan_from_state-nil_example = plan_from_state-nil "3" "90" new_city "seattle"

not_the_flag : (◌==◌ {K = String} "seattle" skip_hourly) ≡ false
not_the_flag = refl

abbrev gold_step : Step
gold_step = record {
  task = gold;
  city = "seattle";
  reason = no_snapshot;
  argv = "gold" ∷ "--city" ∷ "seattle" ∷ [];
}

abbrev ledger : Ledger
ledger = record {
  rows =
      record {
        ops_run_id = 4;
        task = "gold";
        city = "seattle";
        status = succeeded;
        started_at = 50;
        pipeline_version = "2";
      }
      ∷ [];
  next_id = 5;
}

run_step-cooldown_example :
    cooldown_block "3" 3600 1000 (run_step "3" 100 gold_step (exited 1) ledger).1 gold_step
    ≡ (if leb (100 + 3600) 1000 then none else obstacle (exited 1) gold (◌==◌ {K = String} "3" "3"))
run_step-cooldown_example =
    run_step-cooldown "3" "3" 100 1000 3600 gold_step (exited 1) ledger
      (record { fresh = omega arith; past = (inr (omega arith), tt) })

-- Nothing is held back, and only the census step fails.
abbrev no_block : Step → Option Block
no_block x = none

abbrev runs_all_but_census : Step → Bool
runs_all_but_census x = not (task_name x.task == "census")

converge_city_lem_example :
    let r = converge_city no_block runs_all_but_census plan_of_new (untouched "seattle") in
    (r.done ≡ tasks (before_stop no_block runs_all_but_census plan_of_new))
    × Stopped no_block runs_all_but_census (from_stop no_block runs_all_but_census plan_of_new) r
converge_city_lem_example = converge_city_lem no_block runs_all_but_census plan_of_new "seattle"

abbrev same_plan : String → List Step
same_plan city = plan_from_state "3" "90" new_city city

converge-exit_example :
    let cities : List String = "seattle" ∷ "austin" ∷ [] in
    let run = converge true cities none false false no_block runs_all_but_census same_plan in
    (run.0 ≡ (
      if not true
        || has_unknown none cities
        || (not false
            && any (fails (held false no_block) runs_all_but_census same_plan) (chosen none cities))
      then 1
      else 0))
    × (run.1 ≡ (
        if true && not (has_unknown none cities) && not false
        then map
            (λ city.
              converge_city
                (held false no_block)
                runs_all_but_census
                (same_plan city)
                (untouched city))
            (keep (λ city. not (is_nil (same_plan city))) (chosen none cities))
        else []))
converge-exit_example =
    converge-exit true ("seattle" ∷ "austin" ∷ []) none false false no_block runs_all_but_census
      same_plan
