-- ===== src/Etl/Ingest/Sequences.antt =====
-- safety/etl/run.py and safety/etl/transform.py: pull after pull, an incident stands at most once.
use crime_prevention_and_per.Prelude.{
  Bool-cases, length, ℕ, ◌≤◌, String, inl, inr, Bool, false, Option, none, some, List, [], ◌∷◌, map,
  arith,
}
use crime_prevention_and_per.Etl.Validate.{Incident}
use crime_prevention_and_per.Etl.Withdrawn.{Mode, Assessment}
use crime_prevention_and_per.Etl.Promote.{Staged, CrosswalkRow, Stored, crosswalk_of, stored_of}
use crime_prevention_and_per.Etl.Promote.Rows.{rows_of, rows_at, HasKey}
use crime_prevention_and_per.Etl.Promote.Once.{staged_for}
use crime_prevention_and_per.Etl.Ingest.{Db, Tables, Faults, Request, ingest}
use crime_prevention_and_per.Etl.Ingest.Atomic.{is_promoted}
use crime_prevention_and_per.Etl.Ingest.Withdrawal.{apply_to, rows_of-apply_to}
use crime_prevention_and_per.Etl.Ingest.Reconciling.{ingest_keeps}
use crime_prevention_and_per.Etl.Ingest.Settled.{conn_of}
use crime_prevention_and_per.Etl.Ingest.Warehouse.{Shelves, Columns, staged_row, tables_of}
use crime_prevention_and_per.Etl.Ingest.Refines.{accepted_of, rows_after, tables, ingest-rows}

-- No incident has two rows, of one year or of two.
abbrev pub IsSingle : List Stored → Type 0
IsSingle silver = (t : Staged) → length (rows_of t silver) ≤ 1

rows_at-le-rows_of :
    (r : Stored) (silver : List Stored)
    → length (rows_at r silver) ≤ length (rows_of r.incident silver)
rows_at-le-rows_of r [] = omega arith
rows_at-le-rows_of r (i ∷ silver) = ground (arith, rows_at-le-rows_of r silver)

single-HasKey : (silver : List Stored) → IsSingle silver → HasKey silver
single-HasKey silver single r = omega (arith, rows_at-le-rows_of r silver, single r.incident)

-- One pull: its number, source and crosswalk, what fails, whether it reconciles, what it is asked
-- for and what it fetches.
pub record PullOf : Type 0 where
  pub pull : ℕ
  pub source_id : String
  pub version : String
  pub faults : Faults Shelves
  pub reconcile : Bool
  pub request : Request
  pub fetched : Option (List Incident)

module _ (text_key : String → String) (year_of : ℕ → ℕ) (crosswalk : List CrosswalkRow)
    (columns_of : Incident → Columns) (assess : List Incident → Shelves → Option Assessment)
    (occurred_at : String → ℕ) (dataset_of : String → String)
    (reported_of : String → Option ℕ) where
  -- the statements of a pull, reconciling included
  abbrev pub statements : PullOf → Tables Shelves
  statements p =
      tables text_key year_of crosswalk columns_of assess (apply_to dataset_of reported_of p.pull)
        occurred_at p.pull p.source_id p.version

  abbrev pub after_pull : PullOf → Db Shelves → Db Shelves
  after_pull p db =
      (conn_of (ingest (statements p) p.faults p.reconcile p.request p.fetched db)).committed

  abbrev pub after_pulls : List PullOf → Db Shelves → Db Shelves
  after_pulls [] db = db
  after_pulls (p ∷ ps) db = after_pulls ps (after_pull p db)

  after-IsSingle :
      (p : PullOf) (db : Db Shelves) (records : List Incident)
      → IsSingle db.tables.warehouse.silver
      → (t : Staged)
      → length (
          rows_after text_key year_of crosswalk columns_of p.pull p.source_id p.version t records
            db.tables.warehouse)
        ≤ 1
  after-IsSingle p db records single t =
      elim (staged_for t (map (staged_row columns_of p.pull p.source_id) records))
        as (λ o.
          length (elim o [
            | none ↦ rows_of t db.tables.warehouse.silver
            | some s ↦
                stored_of year_of p.version (crosswalk_of text_key p.version crosswalk s) s ∷ []
          ])
          ≤ 1) [ none ↦ single t | some s ↦ omega arith ]

  unreconciled-IsSingle :
      (p : PullOf) (db : Db Shelves)
      → IsSingle db.tables.warehouse.silver
      → IsSingle (after_pull (record p { reconcile = false }) db).tables.warehouse.silver
  unreconciled-IsSingle p db single t =
      let e =
        ingest-rows text_key year_of crosswalk columns_of assess
          (apply_to dataset_of reported_of p.pull) occurred_at p.pull p.source_id p.version p.faults
          p.request p.fetched db t (single-HasKey _ single) in
      elim (Bool-cases (is_promoted p.faults p.request p.fetched)) [
        | inl done ↦ rw e (rw done (after-IsSingle p db (accepted_of p.request p.fetched) single t))
        | inr not_done ↦ rw e (rw not_done (single t))
      ]

  applied-IsSingle :
      (p : PullOf) (a : Assessment) (mode : Mode) (d : Shelves)
      → IsSingle d.warehouse.silver
      → IsSingle ((statements p).apply a mode d).1.warehouse.silver
  unfolding tables_of
  applied-IsSingle p a mode d h t =
      omega (arith, rows_of-apply_to dataset_of reported_of p.pull a mode d t, h t)

  after_pull-IsSingle :
      (p : PullOf) (db : Db Shelves)
      → IsSingle db.tables.warehouse.silver
      → IsSingle (after_pull p db).tables.warehouse.silver
  after_pull-IsSingle p db single =
      ingest_keeps (statements p) p.faults (λ d. IsSingle d.warehouse.silver) p.reconcile p.request
        p.fetched db (applied-IsSingle p) (unreconciled-IsSingle p db single)

  -- Pull after pull, of any sources, whatever each fetches, whether it reconciles and wherever it
  -- fails, no incident comes to have two rows in silver, of one year or of two, if none had before.
  pub after_pulls-IsSingle :
      (ps : List PullOf) (db : Db Shelves)
      → IsSingle db.tables.warehouse.silver
      → IsSingle (after_pulls ps db).tables.warehouse.silver
  after_pulls-IsSingle [] db single = single
  after_pulls-IsSingle (p ∷ ps) db single =
      after_pulls-IsSingle ps (after_pull p db) (after_pull-IsSingle p db single)
