-- ===== src/Etl/Ingest/Warehouse.antt =====
-- safety/etl/run.py and safety/etl/transform.py together: a pull over the tables that staging and
-- promotion write. An Incident has what the checks read of a record; `columns_of` gives what else
-- `stage_records` copies, with the H3 cells, and `occurred_at` reads the instant from those. What
-- reconciling does to the tables is a parameter, which Withdrawal fills.
use crime_prevention_and_per.Prelude.Texts.{joined}
use crime_prevention_and_per.Prelude.{
  nat_eq, if◌then◌else◌, length, keep, String_eq, ◌==◌, ℕ, max, String, ◌≡◌, refl, Bool, ◌&&◌,
  Option, none, some, List, [], ◌∷◌, ◌++◌, map, arith,
}
use crime_prevention_and_per.Etl.Validate.{Incident, warn, ValidationIssue}
use crime_prevention_and_per.Etl.Withdrawn.{Mode, Assessment}
use crime_prevention_and_per.Etl.Withdrawn.Apply.{Archived, Issue, Outcome}
use crime_prevention_and_per.Etl.Promote.{
  Staged, CrosswalkRow, Stored, Warehouse, promote_to_silver, stage_records, clear_staging,
}
use crime_prevention_and_per.Etl.Ingest.{Tables}
use crime_prevention_and_per.Etl.Ingest.Atomic.{KeepsSilver}

-- The tables of a promotion, etl.validation_issue, the warnings in it of withdrawn rows apart, and
-- the archive of those rows.
pub record Shelves : Type 0 where
  pub warehouse : Warehouse
  pub issues : List ValidationIssue
  pub withdrawn : List Issue
  pub archive : List Archived

pub record Columns : Type 0 where
  pub local_date : ℕ
  pub raw_offense_code : Option String
  pub raw_offense_text : Option String
  pub columns : String

-- the row that `stage_records` writes of a record
abbrev pub staged_row : (Incident → Columns) → ℕ → String → Incident → Staged
staged_row columns_of pull source_id r =
    let c = columns_of r in
    record {
      pull_id = pull;
      source_id = source_id;
      incident_key = joined source_id (joined ":" r.source_incident_id);
      local_date = c.local_date;
      raw_offense_code = c.raw_offense_code;
      raw_offense_text = c.raw_offense_text;
      columns = c.columns;
    }

abbrev pub is_unmapped : ℕ → String → Stored → Bool
is_unmapped pull source_id i =
    i.incident.source_id == source_id
    && nat_eq i.incident.pull_id pull
    && i.mapping.mapping_confidence == "unmapped"

-- `flag_unmapped_offenses`: a warning with the number of rows, if there are any
unfoldable pub flag_unmapped_offenses : ℕ → String → Shelves → Shelves
flag_unmapped_offenses pull source_id d =
    let total = length (keep (is_unmapped pull source_id) d.warehouse.silver) in
    if nat_eq total 0 then d else record d {
      issues =
          d.issues
          ++ record {
            check_name = "unmapped_offense_code";
            severity = warn;
            occurrences = total;
            sample_ids = [];
          }
            ∷ [];
    }

-- max(occurred_at) over a source's rows, none if it has none; the instant is one of the copied
-- columns
unfoldable pub newest_of : (String → ℕ) → String → List Stored → Option ℕ
newest_of occurred_at source_id [] = none
newest_of occurred_at source_id (i ∷ silver) =
    let rest = newest_of occurred_at source_id silver in
    let at = occurred_at i.incident.columns in
    if i.incident.source_id == source_id
    then some (elim rest [ none ↦ at | some later ↦ max at later ])
    else rest

module _ (text_key : String → String) (year_of : ℕ → ℕ) (crosswalk : List CrosswalkRow)
    (columns_of : Incident → Columns) (assess : List Incident → Shelves → Option Assessment)
    (apply : Assessment → Mode → Shelves → Outcome × Shelves) (occurred_at : String → ℕ) where
  -- the statements of one pull
  unfoldable pub tables_of : ℕ → String → String → Tables Shelves
  unfolding flag_unmapped_offenses newest_of stage_records promote_to_silver clear_staging
  tables_of pull source_id version = record {
    record_issues = λ is d. record d { issues = d.issues ++ is };
    assess = assess;
    stage_records = λ records d. record d {
      warehouse =
          stage_records pull (map (staged_row columns_of pull source_id) records) d.warehouse;
    };
    promote_to_silver = λ d.
        let r = promote_to_silver text_key year_of crosswalk pull source_id version d.warehouse in
        (record d { warehouse = r.0 }, r.1);
    flag_unmapped_offenses = flag_unmapped_offenses pull source_id;
    clear_staging = λ d. record d { warehouse = clear_staging pull d.warehouse };
    apply = apply;
    newest_occurred = λ d. newest_of occurred_at source_id d.warehouse.silver;
  }

  abbrev pub silver_of : Shelves → List Stored
  silver_of d = d.warehouse.silver

  flag_keeps :
      (pull : ℕ) (source_id : String) (d : Shelves)
      → silver_of (flag_unmapped_offenses pull source_id d) ≡ silver_of d
  unfolding flag_unmapped_offenses
  flag_keeps pull source_id d = ground arith

  pub tables_of-KeepsSilver :
      (pull : ℕ) (source_id version : String)
      → KeepsSilver (tables_of pull source_id version) silver_of
  unfolding tables_of
  tables_of-KeepsSilver pull source_id version = record {
    record_issues_keeps = λ is d. refl;
    flag_unmapped_offenses_keeps = flag_keeps pull source_id;
    clear_staging_keeps = λ d. refl;
  }
