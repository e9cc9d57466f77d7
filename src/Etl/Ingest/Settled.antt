-- ===== src/Etl/Ingest/Settled.antt =====
-- safety/etl/run.py, `_ingest`: what the pull's row and the source's say once it is over.
use crime_prevention_and_per.Prelude.{length, ℕ, ◌≡◌, refl, Bool, Option, none, some, List, arith}
use crime_prevention_and_per.Etl.Ingest.{
  Status, no_new_data, blocked, succeeded, failed, Db, Conn, Tables, closing, closing_mark, Faults,
  nothing_new, refused, promoted, Answer, raised, returned, Request, write, commit, on_tables,
  open_pull, assess_safely, succeed, promote, checked, ingest_body, close, handled, ingest,
}
use crime_prevention_and_per.Etl.Validate.{Incident}
use crime_prevention_and_per.Etl.Validate.Result.{ValidationResult, validate_records}
use crime_prevention_and_per.Etl.Withdrawn.{Mode, Assessment}

module _ {D : Type 0} where
  abbrev pub conn_of : Answer D → Conn D
  conn_of (raised c) = c
  conn_of (returned c _) = c

  -- the status that an answer stands for
  abbrev pub status_of : Answer D → Status
  status_of (raised _) = failed
  status_of (returned _ nothing_new) = no_new_data
  status_of (returned _ refused) = blocked
  status_of (returned _ (promoted _ _)) = succeeded

  -- what the source's `last_status` then is: a pull with nothing new leaves it alone
  abbrev pub source_status_of : Option Status → Answer D → Option Status
  source_status_of before (raised _) = some failed
  source_status_of before (returned _ nothing_new) = before
  source_status_of before (returned _ refused) = some blocked
  source_status_of before (returned _ (promoted _ _)) = some succeeded

  -- nothing is left uncommitted, and both rows say how the pull ended
  abbrev pub IsSettled : Option Status → Answer D → Type 0
  IsSettled before a =
      ((conn_of a).working ≡ (conn_of a).committed)
      × ((conn_of a).committed.run.status ≡ status_of a)
      × ((conn_of a).committed.last_status ≡ source_status_of before a)

  -- the same, of the body, whose exceptions the handler still has to deal with
  abbrev Returned : Option Status → Answer D → Type 0
  Returned before (raised _) = Unit
  Returned before (returned c r) = IsSettled before (returned c r)

module _ {D : Type 0} (t : Tables D) (faults : Faults D) (before : Option Status) where
  promote-Returned :
      (mode : Mode) (a : Option Assessment) (n : ℕ) (result : ValidationResult) (c : Conn D)
      → Returned before (promote t faults mode a n result c)
  unfolding promote succeed
  promote-Returned mode a n result c = ground arith

  checked-Returned :
      (reconcile : Bool) (mode : Mode) (records : List Incident) (result : ValidationResult)
      (c : Conn D)
      → Returned before (checked t faults reconcile mode records result c)
  unfolding checked
  checked-Returned reconcile mode records result c = ground (
    arith,
    promote-Returned mode
        (assess_safely t faults reconcile mode records
          (commit (write (on_tables (t.record_issues result.issues)) c))).0
        (length records) result
        (assess_safely t faults reconcile mode records
          (commit (write (on_tables (t.record_issues result.issues)) c))).1,
  )

  ingest_body-Returned :
      (reconcile : Bool) (q : Request) (fetched : Option (List Incident)) (c : Conn D)
      → c.working.last_status ≡ before
      → Returned before (ingest_body t faults reconcile q fetched c)
  unfolding ingest_body
  ingest_body-Returned reconcile q none c same = tt
  ingest_body-Returned reconcile q (some records) c same =
      let result = validate_records q.now q.bbox q.chunk_counts q.historical_median records in
      ground (arith, checked-Returned reconcile q.mode records result c)

  close-IsSettled :
      (c : Conn D)
      → faults closing ≡ none
      → faults closing_mark ≡ none
      → IsSettled before (close t faults c)
  unfolding close
  close-IsSettled c closes marks = ground arith

  handled-IsSettled :
      (a : Answer D)
      → faults closing ≡ none
      → faults closing_mark ≡ none
      → Returned before a
      → IsSettled before (handled t faults a)
  unfolding handled
  handled-IsSettled (raised c) closes marks _ = close-IsSettled c closes marks
  handled-IsSettled (returned c r) closes marks settled = settled

module _ {D : Type 0} where
  -- Whatever fails on the way, if the handler's own two updates do not, then nothing is left
  -- uncommitted, the pull's row has the status of the answer, so it is not left running, and the
  -- source's row has it too, except that a pull with nothing new leaves it as it was.
  pub ingest-IsSettled :
      (t : Tables D) (faults : Faults D) (reconcile : Bool) (q : Request)
      (fetched : Option (List Incident)) (db : Db D)
      → faults closing ≡ none
      → faults closing_mark ≡ none
      → IsSettled db.last_status (ingest t faults reconcile q fetched db)
  unfolding ingest
  ingest-IsSettled t faults reconcile q fetched db closes marks =
      handled-IsSettled t faults db.last_status
        (ingest_body t faults reconcile q fetched (open_pull db)) closes marks
        (ingest_body-Returned t faults db.last_status reconcile q fetched (open_pull db) refl)
