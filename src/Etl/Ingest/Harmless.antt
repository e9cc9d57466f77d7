-- ===== src/Etl/Ingest/Harmless.antt =====
-- safety/etl/run.py, `_ingest` and `_reconcile_safely`: reconciling leaves the pull's own result
-- alone.
use crime_prevention_and_per.Prelude.{
  length, ℕ, ◌≡◌, refl, Bool, true, false, Option, none, some, List, arith,
}
use crime_prevention_and_per.Etl.Validate.Result.{ValidationResult, validate_records}
use crime_prevention_and_per.Etl.Withdrawn.{Mode, Assessment}
use crime_prevention_and_per.Etl.Ingest.{
  Status, Run, Db, Conn, Tables, Faults, nothing_new, refused, promoted, Answer, raised, returned,
  Request, write, commit, on_tables, open_pull, reconcile_safely, assess_safely, succeed, promote,
  checked, ingest_body, close, handled, ingest,
}
use crime_prevention_and_per.Etl.Ingest.Settled.{conn_of, status_of}
use crime_prevention_and_per.Etl.Validate.{Incident}

module _ {D : Type 0} where
  -- the counts in the answer, if it has some
  abbrev counts_of : Answer D → Option Run
  counts_of (raised _) = none
  counts_of (returned _ nothing_new) = none
  counts_of (returned _ refused) = none
  counts_of (returned _ (promoted run _)) = some run

  -- what a pull records and answers, but for the watermark and the entry on withdrawn rows
  abbrev pub report_of : Answer D → Run × Option Status × Status × Option Run
  report_of a =
      ((conn_of a).committed.run, (conn_of a).committed.last_status, status_of a, counts_of a)

  -- the source's watermark once a pull is over
  abbrev pub watermark_of : Tables D → Option ℕ → Answer D → Option ℕ
  watermark_of t before (returned c (promoted _ _)) = t.newest_occurred c.committed.tables
  watermark_of t before a = before

  -- the same, of the body, whose exceptions the handler still has to deal with
  abbrev IsMarked : Tables D → Option ℕ → Answer D → Type 0
  IsMarked t before (raised c) = c.committed.watermark ≡ before
  IsMarked t before (returned c r) = c.committed.watermark ≡ watermark_of t before (returned c r)

module _ {D : Type 0} (t : Tables D) (faults : Faults D) where
  promote-reconcile :
      (mode : Mode) (a : Option Assessment) (n : ℕ) (result : ValidationResult) (c : Conn D)
      → report_of (handled t faults (promote t faults mode a n result c))
        ≡ report_of (handled t faults (promote t faults mode none n result c))
  unfolding promote succeed reconcile_safely handled close
  promote-reconcile mode none n result c = refl
  promote-reconcile mode (some a) n result c = ground arith

  checked-reconcile :
      (mode : Mode) (records : List Incident) (result : ValidationResult) (c : Conn D)
      → report_of (handled t faults (checked t faults true mode records result c))
        ≡ report_of (handled t faults (checked t faults false mode records result c))
  unfolding checked handled close assess_safely
  checked-reconcile mode records result c =
      let c' = commit (write (on_tables (t.record_issues result.issues)) c) in
      ground (
        arith,
        promote-reconcile mode (t.assess records c'.working.tables) (length records) result c',
      )

  promote-IsMarked :
      (before : Option ℕ) (mode : Mode) (a : Option Assessment) (n : ℕ) (result : ValidationResult)
      (c : Conn D)
      → c.committed.watermark ≡ before
      → c.working.watermark ≡ before
      → IsMarked t before (promote t faults mode a n result c)
  unfolding promote succeed reconcile_safely
  promote-IsMarked before mode none n result c h k = ground arith
  promote-IsMarked before mode (some a) n result c h k = ground arith

  checked-IsMarked :
      (before : Option ℕ) (reconcile : Bool) (mode : Mode) (records : List Incident)
      (result : ValidationResult) (c : Conn D)
      → c.committed.watermark ≡ before
      → c.working.watermark ≡ before
      → IsMarked t before (checked t faults reconcile mode records result c)
  unfolding checked assess_safely
  checked-IsMarked before reconcile mode records result c h k =
      let c' = commit (write (on_tables (t.record_issues result.issues)) c) in
      let assessed = assess_safely t faults reconcile mode records c' in
      ground (arith, promote-IsMarked before mode assessed.0 (length records) result assessed.1)

  handled-IsMarked :
      (before : Option ℕ) (a : Answer D)
      → IsMarked t before a
      → (conn_of (handled t faults a)).committed.watermark
        ≡ watermark_of t before (handled t faults a)
  unfolding handled close
  handled-IsMarked before (raised c) h = ground arith
  handled-IsMarked before (returned c r) h = h

  ingest_body-IsMarked :
      (reconcile : Bool) (q : Request) (fetched : Option (List Incident)) (c : Conn D)
      (before : Option ℕ)
      → c.committed.watermark ≡ before
      → c.working.watermark ≡ before
      → IsMarked t before (ingest_body t faults reconcile q fetched c)
  unfolding ingest_body
  ingest_body-IsMarked reconcile q none c before h k = h
  ingest_body-IsMarked reconcile q (some records) c before h k =
      let result = validate_records q.now q.bbox q.chunk_counts q.historical_median records in
      ground (arith, checked-IsMarked before reconcile q.mode records result c h k)

  -- The watermark moves with a success alone, to the newest of what is then in silver.
  ingest-watermark :
      (reconcile : Bool) (q : Request) (fetched : Option (List Incident)) (db : Db D)
      → (conn_of (ingest t faults reconcile q fetched db)).committed.watermark
        ≡ watermark_of t db.watermark (ingest t faults reconcile q fetched db)
  unfolding ingest
  ingest-watermark reconcile q fetched db =
      handled-IsMarked db.watermark (ingest_body t faults reconcile q fetched (open_pull db))
        (ingest_body-IsMarked reconcile q fetched (open_pull db) db.watermark refl refl)

  ingest-report :
      (q : Request) (fetched : Option (List Incident)) (db : Db D)
      → report_of (ingest t faults true q fetched db)
        ≡ report_of (ingest t faults false q fetched db)
  unfolding ingest ingest_body handled
  ingest-report q none db = refl
  ingest-report q (some records) db =
      let result = validate_records q.now q.bbox q.chunk_counts q.historical_median records in
      ground (arith, checked-reconcile q.mode records result (open_pull db))

module _ {D : Type 0} where
  -- Whether a pull reconciles, and whether the assessment or the reconciliation then fails, changes
  -- nothing of the pull's row, of the source's `last_status`, of the status that the pull answers
  -- or raises with and of the counts in its answer. The source's watermark may differ, with the
  -- rows of silver: after a success it is the newest of what silver then holds, reconciled or not,
  -- and after any other end what it was.
  pub ingest-reconcile :
      (t : Tables D) (faults : Faults D) (q : Request) (fetched : Option (List Incident))
      (db : Db D)
      → let with_it = ingest t faults true q fetched db in
        let without = ingest t faults false q fetched db in
        (report_of with_it ≡ report_of without)
        × ((conn_of with_it).committed.watermark ≡ watermark_of t db.watermark with_it)
        × ((conn_of without).committed.watermark ≡ watermark_of t db.watermark without)
  ingest-reconcile t faults q fetched db = (
    ingest-report t faults q fetched db,
    ingest-watermark t faults true q fetched db,
    ingest-watermark t faults false q fetched db,
  )
