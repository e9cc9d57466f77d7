-- ===== src/Etl/Ingest/Withdrawal.antt =====
-- safety/etl/withdrawn.py, `apply`, on the tables of a pull: what silver is left with. The dataset and
-- the day of the report are among the copied columns; `dataset_of` and `reported_of` read them.
use crime_prevention_and_per.Prelude.{
  Bool-cases, length, keep, ℕ, ◌≤◌, String, ◌≡◌, refl, ap, inl, inr, not, Option, List, [], ◌∷◌,
  map, arith,
}
use crime_prevention_and_per.Etl.Withdrawn.{
  Mode, off, report, delete, Row, Decision, nothing, remove_all, skip, Assessment,
}
use crime_prevention_and_per.Etl.Withdrawn.Apply.{
  Database, Outcome, doomed, delete_rows, delete_absent, apply_decision, apply,
}
use crime_prevention_and_per.Etl.Promote.{Staged, Stored}
use crime_prevention_and_per.Etl.Promote.Rows.{rows_of}
use crime_prevention_and_per.Etl.Ingest.Warehouse.{Shelves}

module _ (dataset_of : String → String) (reported_of : String → Option ℕ) where
  -- what `apply` reads of a stored row
  abbrev pub row_of : Stored → Row
  row_of i = record {
    source_id = i.incident.source_id;
    dataset = dataset_of i.incident.columns;
    incident_key = i.incident.incident_key;
    occurred_day = i.incident.local_date;
    reported_day = reported_of i.incident.columns;
  }

  abbrev pub database_of : Shelves → Database
  database_of d = record {
    silver = map row_of d.warehouse.silver;
    archive = d.archive;
    marks = d.warehouse.marks;
    issues = d.withdrawn;
  }

  -- `_DELETE_SQL` runs only to delete and only if the guard lets it.
  abbrev pub surviving : Decision → Mode → Assessment → List Stored → List Stored
  surviving remove_all delete a silver = keep (λ i. not (doomed a (row_of i))) silver
  surviving remove_all off a silver = silver
  surviving remove_all report a silver = silver
  surviving nothing mode a silver = silver
  surviving (skip reason) mode a silver = silver

  -- `apply`, on the whole rows of silver
  unfoldable pub apply_to : ℕ → Assessment → Mode → Shelves → Outcome × Shelves
  unfolding apply
  apply_to pull a mode d =
      let r = apply (database_of d) pull a mode in
      (
        r.0,
        record d {
          warehouse = record d.warehouse {
            silver = surviving a.decision mode a d.warehouse.silver;
            marks = r.1.marks;
          };
          withdrawn = r.1.issues;
          archive = r.1.archive;
        },
      )

  map-keep :
      (a : Assessment) (silver : List Stored)
      → map row_of (keep (λ i. not (doomed a (row_of i))) silver)
        ≡ keep (λ r. not (doomed a r)) (map row_of silver)
  map-keep a [] = refl
  map-keep a (i ∷ silver) = elim (Bool-cases (doomed a (row_of i))) [
    | inl out ↦ rw out (map-keep a silver)
    | inr kept ↦ rw kept (ap (λ rs. row_of i ∷ rs) (map-keep a silver))
  ]

  surviving_lem :
      (decision : Decision) (pull : ℕ) (a : Assessment) (mode : Mode) (d : Shelves)
      → map row_of (surviving decision mode a d.warehouse.silver)
        ≡ (apply_decision decision mode (database_of d) pull a).1.silver
  unfolding apply_decision delete_absent delete_rows
  surviving_lem nothing pull a mode d = refl
  surviving_lem (skip reason) pull a mode d = refl
  surviving_lem remove_all pull a off d = refl
  surviving_lem remove_all pull a report d = refl
  surviving_lem remove_all pull a delete d = ground (arith, map-keep a d.warehouse.silver)

  -- The whole rows that are left are those that `apply` leaves.
  apply_to-apply :
      (pull : ℕ) (a : Assessment) (mode : Mode) (d : Shelves)
      → database_of (apply_to pull a mode d).1 ≡ (apply (database_of d) pull a mode).1
  unfolding apply_to apply
  apply_to-apply pull a mode d =
      let r = (apply_decision a.decision mode (database_of d) pull a).1 in
      ap (λ (rows : List Row). record r { silver = rows }) (surviving_lem a.decision pull a mode d)

  rows_of-surviving :
      (decision : Decision) (mode : Mode) (a : Assessment) (t : Staged) (silver : List Stored)
      → length (rows_of t (surviving decision mode a silver)) ≤ length (rows_of t silver)
  rows_of-surviving nothing mode a t silver = omega arith
  rows_of-surviving (skip reason) mode a t silver = omega arith
  rows_of-surviving remove_all off a t silver = omega arith
  rows_of-surviving remove_all report a t silver = omega arith
  rows_of-surviving remove_all delete a t [] = omega arith
  rows_of-surviving remove_all delete a t (i ∷ silver) =
      ground (arith, rows_of-surviving remove_all delete a t silver)

  -- It adds no row of any incident.
  pub rows_of-apply_to :
      (pull : ℕ) (a : Assessment) (mode : Mode) (d : Shelves) (t : Staged)
      → length (rows_of t (apply_to pull a mode d).1.warehouse.silver)
        ≤ length (rows_of t d.warehouse.silver)
  unfolding apply_to
  rows_of-apply_to pull a mode d t = rows_of-surviving a.decision mode a t d.warehouse.silver
