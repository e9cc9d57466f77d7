-- ===== src/Etl/Tests/Ingests.antt =====
-- The theorems on a whole pull at concrete inputs.
use crime_prevention_and_per.Prelude.{
  nat_eq, if◌then◌else◌, length, ℕ, suc, ◌+◌, ◌≡◌, refl, true, false, none, some, List, [], ◌++◌,
}
use crime_prevention_and_per.OrderedDict.{lookup, put}
use crime_prevention_and_per.Etl.Validate.{Incident, reject_reason, check_one}
use crime_prevention_and_per.Etl.Validate.Result.{validate_records}
use crime_prevention_and_per.Etl.Withdrawn.{report, occurred, remove_all, Assessment}
use crime_prevention_and_per.Etl.Withdrawn.Apply.{no_action}
use crime_prevention_and_per.Etl.Ingest.{
  running, failed, Db, Tables, Stage, flagging, reconciling, Faults, with_status, Request,
  reconcile_safely, assess_safely, succeed, promote, checked, ingest_body, close, handled, ingest,
}
use crime_prevention_and_per.Etl.Ingest.Settled.{conn_of, IsSettled, ingest-IsSettled}
use crime_prevention_and_per.Etl.Ingest.Harmless.{report_of, watermark_of, ingest-reconcile}
use crime_prevention_and_per.Etl.Tests.Pulls.{pull, now}

-- The staged and the promoted incidents, and the number of issues.
abbrev Store : Type 0
Store = List Incident × List Incident × ℕ

abbrev whole : Assessment
whole = record {
  source_id = "sea";
  dataset = "spd";
  basis = occurred;
  lo = 1;
  hi = 2;
  prior = 1;
  absent_keys = [];
  strata = [];
  decision = remove_all;
}

-- Promotion adds the staged records; reconciling drops all of silver.
abbrev store : Tables Store
store = record {
  record_issues = λ is d. (d.0, d.1, length is + d.2);
  assess = λ seen d. some whole;
  stage_records = λ records d. (records, d.1, d.2);
  promote_to_silver = λ d. ((d.0, d.0 ++ d.1, d.2), length d.0);
  flag_unmapped_offenses = λ d. (d.0, d.1, suc d.2);
  clear_staging = λ d. ([], d.1, d.2);
  apply = λ a mode d.
      (record { action = no_action; absent = 0; deleted_rows = 0; prior = 1 }, (d.0, [], d.2));
  newest_occurred = λ d. if nat_eq (length d.1) 0 then none else some (length d.1);
}

-- A statement that fails once it has emptied the tables.
abbrev emptied : Db Store → Db Store
emptied db = record db { tables = ([], [], 0) }

abbrev failing : Stage → Faults Store
failing reconciling reconciling = some emptied
failing flagging flagging = some emptied
failing _ _ = none

abbrev request : Request
request = record {
  now = now;
  bbox = none;
  chunk_counts = [];
  historical_median = none;
  mode = report;
}

abbrev before : Db Store
before = record {
  tables = ([], [], 0);
  run = with_status running;
  last_status = none;
  watermark = some 5;
}

ingest-IsSettled_example :
    IsSettled none (ingest store (failing flagging) true request (some pull) before)
ingest-IsSettled_example =
    ingest-IsSettled store (failing flagging) true request (some pull) before refl refl

ingest-reconcile_example :
    let with_it = ingest store (failing reconciling) true request (some pull) before in
    let without = ingest store (failing reconciling) false request (some pull) before in
    (report_of with_it ≡ report_of without)
    × ((conn_of with_it).committed.watermark ≡ watermark_of store (some 5) with_it)
    × ((conn_of without).committed.watermark ≡ watermark_of store (some 5) without)
ingest-reconcile_example = ingest-reconcile store (failing reconciling) request (some pull) before

abbrev no_failing : Faults Store
no_failing _ = none

-- Reconciling empties silver here, and the watermark with it.
watermarks :
    let with_it = ingest store no_failing true request (some pull) before in
    let without = ingest store no_failing false request (some pull) before in
    ((conn_of with_it).committed.watermark ≡ none)
    × ((conn_of without).committed.watermark ≡ some 1)
unfolding ingest validate_records lookup put reject_reason check_one ingest_body handled close
    checked assess_safely promote succeed reconcile_safely
watermarks = (refl, refl)

-- The pull fails after promotion: one record is in silver.
failed_after_promotion :
    let c = conn_of (ingest store (failing flagging) true request (some pull) before) in
    (c.committed.run.status ≡ failed) × (length c.committed.tables.1 ≡ 1)
unfolding ingest validate_records lookup put reject_reason check_one ingest_body handled close
failed_after_promotion = (refl, refl)
