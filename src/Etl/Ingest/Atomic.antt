-- ===== src/Etl/Ingest/Atomic.antt =====
-- safety/etl/run.py, `_ingest`: which of its failures reach the rows of silver.
use crime_prevention_and_per.Prelude.{
  nat_eq, if◌then◌else◌, length, ◌≡◌, Bool, true, false, not, ◌&&◌, Option, none, some, List, arith,
}
use crime_prevention_and_per.Etl.Validate.{Incident, ValidationIssue}
use crime_prevention_and_per.Etl.Validate.Result.{ValidationResult, validate_records}
use crime_prevention_and_per.Etl.Ingest.{
  Db, Tables, Stage, issues, staging, promoting, Faults, Request, reconcile_safely, assess_safely,
  succeed, promote, checked, ingest_body, close, handled, ingest,
}
use crime_prevention_and_per.Etl.Ingest.Settled.{conn_of}

-- What the stages around promotion owe silver, a view of the tables: they leave it alone.
pub record KeepsSilver {D S : Type 0} (t : Tables D) (silver : D → S) : Type 0 where
  pub record_issues_keeps :
      (is : List ValidationIssue) (d : D) → silver (t.record_issues is d) ≡ silver d
  pub flag_unmapped_offenses_keeps : (d : D) → silver (t.flag_unmapped_offenses d) ≡ silver d
  pub clear_staging_keeps : (d : D) → silver (t.clear_staging d) ≡ silver d

abbrev pub is_quiet : {D : Type 0} → Faults D → Stage → Bool
is_quiet faults stage = elim (faults stage) [ none ↦ true | some _ ↦ false ]

-- the checks of a request's records
abbrev pub result_of : Request → List Incident → ValidationResult
result_of q records = validate_records q.now q.bbox q.chunk_counts q.historical_median records

-- Does the promotion of what was fetched commit?
abbrev pub is_promoted : {D : Type 0} → Faults D → Request → Option (List Incident) → Bool
is_promoted faults q none = false
is_promoted faults q (some records) =
    not (nat_eq (length records) 0)
    && not (result_of q records).blocked
    && (is_quiet faults issues && is_quiet faults staging && is_quiet faults promoting)

-- the tables once the accepted records are promoted
abbrev pub promoted_tables : {D : Type 0} → Tables D → Request → Option (List Incident) → D → D
promoted_tables t q none d = d
promoted_tables t q (some records) d =
    let result = result_of q records in
    (t.promote_to_silver (t.stage_records result.accepted (t.record_issues result.issues d))).0

module _ {D S : Type 0} (t : Tables D) (silver : D → S) (keeps : KeepsSilver t silver) where
  -- If recording issues, flagging and clearing leave silver alone, silver after a pull that does
  -- not reconcile is all of the promotion or what it was: the promotion exactly if something was
  -- fetched, the checks did not block it, and no statement up to the promotion failed. Whatever
  -- fails later, the handler included, takes nothing back.
  pub ingest-silver :
      (faults : Faults D) (q : Request) (fetched : Option (List Incident)) (db : Db D)
      → silver (conn_of (ingest t faults false q fetched db)).committed.tables ≡ (
          if is_promoted faults q fetched
          then silver (promoted_tables t q fetched db.tables)
          else silver db.tables)
  unfolding ingest ingest_body handled checked promote succeed close assess_safely reconcile_safely
  ingest-silver faults q none db = ground arith
  ingest-silver faults q (some records) db =
      let result = result_of q records in
      let p = promoted_tables t q (some records) db.tables in
      ground (
        arith,
        keeps.record_issues_keeps result.issues db.tables,
        keeps.flag_unmapped_offenses_keeps p,
        keeps.clear_staging_keeps (t.flag_unmapped_offenses p),
      )
