-- ===== src/Etl/Ingest/Reconciling.antt =====
-- safety/etl/run.py, `_ingest`: what a pull that reconciles leaves of the tables, beside one that
-- does not.
use crime_prevention_and_per.Prelude.{
  nat_eq, if◌then◌else◌, length, ℕ, ◌≡◌, refl, sym, subst, Bool, true, false, not, ◌&&◌, Option,
  none, some, List, arith,
}
use crime_prevention_and_per.Etl.Validate.{Incident}
use crime_prevention_and_per.Etl.Validate.Result.{ValidationResult, validate_records}
use crime_prevention_and_per.Etl.Withdrawn.{Mode, Assessment}
use crime_prevention_and_per.Etl.Ingest.{
  Db, Conn, Tables, issues, assessing, staging, promoting, flagging, clearing, reconciling, Faults,
  Answer, Request, is_off, write, commit, on_tables, open_pull, reconcile_safely, assess_safely,
  succeed, promote, checked, ingest_body, close, handled, ingest,
}
use crime_prevention_and_per.Etl.Ingest.Settled.{conn_of}
use crime_prevention_and_per.Etl.Ingest.Atomic.{is_quiet, result_of}

module _ {D : Type 0} (t : Tables D) (faults : Faults D) where
  abbrev tables_after : Answer D → D
  tables_after a = (conn_of (handled t faults a)).committed.tables

  -- The assessment that a pull applies: only if what follows it does not raise.
  abbrev reaches : Option Assessment → Option Assessment
  reaches a =
      if is_quiet faults staging
        && is_quiet faults promoting
        && (is_quiet faults flagging && is_quiet faults clearing && is_quiet faults reconciling)
      then a
      else none

  abbrev withdrawn_by : Mode → Option Assessment → D → D
  withdrawn_by mode none d = d
  withdrawn_by mode (some a) d = (t.apply a mode d).1

  promote-tables :
      (mode : Mode) (a : Option Assessment) (n : ℕ) (result : ValidationResult) (c : Conn D)
      → tables_after (promote t faults mode a n result c)
        ≡ withdrawn_by mode (reaches a) (tables_after (promote t faults mode none n result c))
  unfolding promote succeed reconcile_safely handled close
  promote-tables mode none n result c = ground arith
  promote-tables mode (some a) n result c = ground arith

  -- what is assessed, if it is
  abbrev assessed_of : Mode → List Incident → D → Option Assessment
  assessed_of mode records d =
      if not (is_off mode) && is_quiet faults assessing then t.assess records d else none

  checked-tables :
      (mode : Mode) (records : List Incident) (result : ValidationResult) (c : Conn D)
      → tables_after (checked t faults true mode records result c)
        ≡ withdrawn_by mode
            (if not result.blocked && is_quiet faults issues
              then reaches
                  (assessed_of mode records (t.record_issues result.issues c.working.tables))
              else none)
            (tables_after (checked t faults false mode records result c))
  unfolding checked handled close assess_safely
  checked-tables mode records result c =
      let c' = commit (write (on_tables (t.record_issues result.issues)) c) in
      ground
        (arith, promote-tables mode (t.assess records c'.working.tables) (length records) result c')

  -- The assessment that a pull applies to what it promotes, if it does.
  abbrev applied_of : Request → Option (List Incident) → D → Option Assessment
  applied_of q none d = none
  applied_of q (some records) d =
      let result = result_of q records in
      if not (nat_eq (length records) 0) && not result.blocked && is_quiet faults issues
      then reaches (assessed_of q.mode records (t.record_issues result.issues d))
      else none

  -- A pull that reconciles leaves what one that does not leaves, after the assessment is applied.
  ingest-tables :
      (q : Request) (fetched : Option (List Incident)) (db : Db D)
      → (conn_of (ingest t faults true q fetched db)).committed.tables
        ≡ withdrawn_by q.mode
            (applied_of q fetched db.tables)
            (conn_of (ingest t faults false q fetched db)).committed.tables
  unfolding ingest ingest_body handled
  ingest-tables q none db = refl
  ingest-tables q (some records) db =
      let result = validate_records q.now q.bbox q.chunk_counts q.historical_median records in
      ground (arith, checked-tables q.mode records result (open_pull db))

  -- What a pull that does not reconcile makes hold, and each application of an assessment keeps,
  -- holds after any pull.
  pub ingest_keeps {ℓ} :
      (P : D → Type ℓ) (reconcile : Bool) (q : Request) (fetched : Option (List Incident))
      (db : Db D)
      → ((a : Assessment) (mode : Mode) (d : D) → P d → P (t.apply a mode d).1)
      → P (conn_of (ingest t faults false q fetched db)).committed.tables
      → P (conn_of (ingest t faults reconcile q fetched db)).committed.tables
  ingest_keeps P false q fetched db applies h = h
  ingest_keeps P true q fetched db applies h =
      let without = (conn_of (ingest t faults false q fetched db)).committed.tables in
      subst P (sym (ingest-tables q fetched db))
        (elim (applied_of q fetched db.tables) as (λ o. P (withdrawn_by q.mode o without)) [
          | none ↦ h
          | some a ↦ applies a q.mode without h
        ])
