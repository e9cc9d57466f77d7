-- ===== src/Etl/Tests/Promotions.antt =====
-- The theorems on promotions at concrete inputs.
use crime_prevention_and_per.Prelude.{
  if◌then◌else◌, length, String_eq, ℕ, ◌/◌, String, ◌≡◌, refl, true, false, Option, none, some,
  List, [], ◌∷◌, arith,
}
use crime_prevention_and_per.Etl.Validate.{Incident}
use crime_prevention_and_per.Etl.Withdrawn.{
  Mode, report, delete, occurred, remove_all, Assessment, in_scope,
}
use crime_prevention_and_per.Etl.Withdrawn.Apply.{
  no_action, Outcome, delete_rows, delete_absent, apply_decision, apply,
}
use crime_prevention_and_per.Etl.Promote.{
  Staged, CrosswalkRow, Stored, crosswalk_of, stored_of, join_one, joined_changes, left_join,
  changes, Warehouse, promote_to_silver,
}
use crime_prevention_and_per.Etl.Promote.Rows.{rows_of, HasKey}
use crime_prevention_and_per.Etl.Promote.Crosswalk.{Chooses, crosswalk_of-Chooses}
use crime_prevention_and_per.Etl.Pending.{mark, pending_of}
use crime_prevention_and_per.OrderedDict.{lookup, put}
use crime_prevention_and_per.Etl.Ingest.{
  running, Db, clearing, Faults, with_status, Request, ingest,
}
use crime_prevention_and_per.Etl.Ingest.Settled.{conn_of}
use crime_prevention_and_per.Etl.Ingest.Atomic.{is_promoted}
use crime_prevention_and_per.Etl.Ingest.Warehouse.{Shelves, Columns}
use crime_prevention_and_per.Etl.Ingest.Withdrawal.{apply_to}
use crime_prevention_and_per.Etl.Ingest.Sequences.{
  IsSingle, PullOf, after_pulls, after_pulls-IsSingle,
}
use crime_prevention_and_per.Etl.Ingest.Refines.{accepted_of, rows_after, tables, ingest-rows}
use crime_prevention_and_per.Etl.Tests.Pulls.{pull, now}

abbrev key_text : String → String
key_text text = text

abbrev year : ℕ → ℕ
year day = day / 365

-- Every assault, whatever its text, from day 0 on.
abbrev rules : List CrosswalkRow
rules =
    record {
      source_id = "sea";
      crosswalk_version = "v1";
      raw_offense_code = "13A";
      raw_offense_text_key = "*";
      effective_from = 0;
      effective_to = none;
      mapping = record {
        nibrs_code = some "13A";
        severity_bucket = "high";
        product_category = "assault";
        mapping_confidence = "exact";
      };
    }
    ∷ []

abbrev on_day : String → ℕ → Staged
on_day key day = record {
  pull_id = 7;
  source_id = "sea";
  incident_key = key;
  local_date = day;
  raw_offense_code = some "13A";
  raw_offense_text = none;
  columns = "";
}

crosswalk_of-Chooses_example :
    Chooses key_text "v1"
      (on_day "sea:1" 800)
      rules
      (crosswalk_of key_text "v1" rules (on_day "sea:1" 800))
crosswalk_of-Chooses_example = crosswalk_of-Chooses key_text "v1" rules (on_day "sea:1" 800)

-- Incident 1 moved from year 0 to year 2; incident 2 is new.
abbrev moved : Warehouse
moved = record {
  staging = on_day "sea:1" 800 ∷ on_day "sea:2" 810 ∷ [];
  silver = stored_of year "v1" none (on_day "sea:1" 300) ∷ [];
  marks = [];
}

one_row : HasKey moved.silver
one_row r = ground arith

-- The mark reaches back to the day that the moved incident left.
marked_from_300 :
    pending_of (promote_to_silver key_text year rules 7 "sea" "v1" moved).0.marks "sea"
    ≡ some (some 300)
unfolding promote_to_silver changes left_join joined_changes join_one lookup mark put
marked_from_300 = refl

abbrev columns_of : Incident → Columns
columns_of r = record {
  local_date = 800;
  raw_offense_code = some "13A";
  raw_offense_text = none;
  columns = r.coordinate_source;
}

abbrev no_assessment : List Incident → Shelves → Option Assessment
no_assessment records d = none

abbrev leave : Assessment → Mode → Shelves → Outcome × Shelves
leave a mode d = (record { action = no_action; absent = 0; deleted_rows = 0; prior = 0 }, d)

abbrev at_midnight : String → ℕ
at_midnight columns = 0

abbrev no_faults : Faults Shelves
no_faults stage = none

abbrev failing : Faults Shelves
failing clearing = some (λ db. db)
failing _ = none

abbrev asked : Request
asked = record {
  now = now;
  bbox = none;
  chunk_counts = [];
  historical_median = none;
  mode = report;
}

abbrev shelves : Db Shelves
shelves = record {
  tables = record {
    warehouse = record moved { staging = [] };
    issues = [];
    withdrawn = [];
    archive = [];
  };
  run = with_status running;
  last_status = none;
  watermark = none;
}

abbrev rows_then : Staged → List Incident → Warehouse → List Stored
rows_then = rows_after key_text year rules columns_of 7 "sea" "v1"

ingest-rows_example :
    rows_of
      (on_day "sea:1" 0)
      (conn_of (
        ingest
          (tables key_text year rules columns_of no_assessment leave at_midnight 7 "sea" "v1")
          no_faults
          false
          asked
          (some pull)
          shelves)).committed.tables.warehouse.silver
    ≡ (if is_promoted no_faults asked (some pull)
        then rows_then (on_day "sea:1" 0) (accepted_of asked (some pull)) shelves.tables.warehouse
        else rows_of (on_day "sea:1" 0) shelves.tables.warehouse.silver)
ingest-rows_example =
    ingest-rows key_text year rules columns_of no_assessment leave at_midnight 7 "sea" "v1"
      no_faults asked (some pull) shelves (on_day "sea:1" 0) one_row

abbrev first_pull : PullOf
first_pull = record {
  pull = 7;
  source_id = "sea";
  version = "v1";
  faults = no_faults;
  reconcile = false;
  request = asked;
  fetched = some pull;
}

-- The two incidents of `moved` are found absent.
abbrev both_absent : List Incident → Shelves → Option Assessment
both_absent records d = some (record {
  source_id = "sea";
  dataset = "spd";
  basis = occurred;
  lo = 1;
  hi = 900;
  prior = 2;
  absent_keys = "sea:1" ∷ "sea:2" ∷ [];
  strata = [];
  decision = remove_all;
})

-- The pull again, which reconciles, and again, which then fails once it has promoted.
abbrev reconciling_pull : PullOf
reconciling_pull = record first_pull {
  pull = 8;
  reconcile = true;
  request = record asked { mode = delete };
}

abbrev spd : String → String
spd columns = "spd"

abbrev not_reported : String → Option ℕ
not_reported columns = none

abbrev failing_pull : PullOf
failing_pull = record first_pull { pull = 9; faults = failing }

moved_once : IsSingle moved.silver
moved_once t = ground arith

after_pulls-IsSingle_example :
    IsSingle
      (after_pulls key_text year rules columns_of both_absent at_midnight spd not_reported
        (first_pull ∷ reconciling_pull ∷ failing_pull ∷ [])
        shelves).tables.warehouse.silver
after_pulls-IsSingle_example =
    after_pulls-IsSingle key_text year rules columns_of both_absent at_midnight spd not_reported
      (first_pull ∷ reconciling_pull ∷ failing_pull ∷ []) shelves moved_once

-- Incident 1 is deleted and archived.
one_withdrawn :
    let d =
      (apply_to spd not_reported 8
        (record {
          source_id = "sea";
          dataset = "spd";
          basis = occurred;
          lo = 1;
          hi = 900;
          prior = 2;
          absent_keys = "sea:1" ∷ [];
          strata = [];
          decision = remove_all;
        })
        delete
        shelves.tables).1 in
    (length d.warehouse.silver ≡ 0) × (length d.archive ≡ 1)
unfolding apply_to apply apply_decision delete_absent delete_rows in_scope
one_withdrawn = (refl, refl)
