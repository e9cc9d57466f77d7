-- ===== src/Ops/Ledger.antt =====
-- safety/ops.py, the ledger etl.ops_run: which steps were tried when, and how long to leave one
-- alone. Instants are whole seconds. The table is the list of its rows, oldest first; of rows that
-- started together the latest inserted is the last. Durations and error texts are left out. A run
-- that is killed never closes its row.
pub mod Cooldown
use crime_prevention_and_per.Prelude.{
  leb, nat_eq, if◌then◌else◌, String_eq, ◌==◌, ℕ, ◌+◌, String, Bool, true, false, ◌&&◌, Option,
  none, some, List, [], ◌∷◌, ◌++◌, map,
}
use crime_prevention_and_per.Ops.Plan.{Task, backfill, census, gold, hourly, history, Step}

pub data Status : Type 0 where
  running failed succeeded : Status

pub record OpsRun : Type 0 where
  pub ops_run_id : ℕ
  pub task : String
  pub city : String
  pub status : Status
  pub started_at : ℕ
  pub pipeline_version : String

pub record Ledger : Type 0 where
  pub rows : List OpsRun
  pub next_id : ℕ

abbrev pub task_name : Task → String
task_name backfill = "backfill"
task_name census = "census"
task_name gold = "gold"
task_name hourly = "hourly"
task_name history = "history"

abbrev pub is_newer : OpsRun → Option OpsRun → Bool
is_newer r none = true
is_newer r (some best) = leb best.started_at r.started_at

abbrev pub concerns : Step → OpsRun → Bool
concerns step r = r.task == task_name step.task && r.city == step.city

-- `_LAST_ATTEMPT_SQL`
unfoldable pub last_attempt : Step → Option OpsRun → List OpsRun → Option OpsRun
last_attempt step best [] = best
last_attempt step best (r ∷ rows) =
    last_attempt step (if concerns step r && is_newer r best then some r else best) rows

-- Why a step is left alone.
pub data Block : Type 0 where
  in_flight : Block
  failed_lately : Block
  without_effect : Block

-- what the last attempt says, within the cooldown
unfoldable pub verdict : String → Step → Status → String → Option Block
verdict version step running by = some in_flight
verdict version step failed by = some failed_lately
verdict version step succeeded by =
    if task_name step.task == "history"
    then none
    else if by == version
    then some without_effect
    else none

-- the rest of `_cooldown_block`, on the last attempt
abbrev pub block_of : String → ℕ → ℕ → Step → Option OpsRun → Option Block
block_of version cooldown now step none = none
block_of version cooldown now step (some last) =
    if leb (last.started_at + cooldown) now
    then none
    else verdict version step last.status last.pipeline_version

-- `_cooldown_block`
unfoldable pub cooldown_block : String → ℕ → ℕ → Ledger → Step → Option Block
unfolding last_attempt verdict
cooldown_block version cooldown now ledger step =
    block_of version cooldown now step (last_attempt step none ledger.rows)

-- `_ledger_open`
unfoldable pub ledger_open : String → ℕ → Step → Ledger → Ledger
ledger_open version now step l = record {
  rows =
      l.rows
      ++ record {
        ops_run_id = l.next_id;
        task = task_name step.task;
        city = step.city;
        status = running;
        started_at = now;
        pipeline_version = version;
      }
        ∷ [];
  next_id = l.next_id + 1;
}

abbrev pub close_row : ℕ → Status → OpsRun → OpsRun
close_row id status r = if nat_eq r.ops_run_id id then record r { status = status } else r

-- `_ledger_close`
unfoldable pub ledger_close : ℕ → Status → Ledger → Ledger
ledger_close id status l = record l { rows = map (close_row id status) l.rows }

-- How the command of a step ends.
pub data Ending : Type 0 where
  killed : Ending
  raised : Ending
  exited : ℕ → Ending

-- `run_step`: whether it succeeded, and the ledger; a killed one does not return
unfoldable pub run_step : String → ℕ → Step → Ending → Ledger → Option Bool × Ledger
unfolding ledger_open ledger_close
run_step version now step killed l = (none, ledger_open version now step l)
run_step version now step raised l =
    (some false, ledger_close l.next_id failed (ledger_open version now step l))
run_step version now step (exited code) l =
    if nat_eq code 0
    then (some true, ledger_close l.next_id succeeded (ledger_open version now step l))
    else (some false, ledger_close l.next_id failed (ledger_open version now step l))
