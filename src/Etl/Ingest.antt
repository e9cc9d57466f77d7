-- ===== src/Etl/Ingest.antt =====
-- safety/etl/run.py, `_ingest`: one pull from the portal to silver, over a connection with a
-- transaction. The statements of the other modules are the operations of `Tables`. `faults` says
-- which of them raise, and what such a statement had written by then; a commit, a rollback and
-- `_open_pull` do not. `fetched` is none when the portal or its adapter raised. The bronze files,
-- the boundary, times and texts are left out.
pub mod Atomic
pub mod Refines
pub mod Sequences
pub mod Settled
pub mod Warehouse
pub mod Harmless
pub mod Reconciling
pub mod Withdrawal
use crime_prevention_and_per.Prelude.{
  nat_eq, if◌then◌else◌, length, String_eq, ℕ, String, Bool, true, false, not, ◌&&◌, Option, none,
  some, List,
}
use crime_prevention_and_per.OrderedDict.{Dict}
use crime_prevention_and_per.Etl.Validate.{Incident, ValidationIssue, BoundingBox}
use crime_prevention_and_per.Etl.Validate.Result.{ValidationResult, validate_records}
use crime_prevention_and_per.Etl.Withdrawn.{Mode, off, Assessment}
use crime_prevention_and_per.Etl.Withdrawn.Apply.{Outcome}

pub data Status : Type 0 where
  running no_new_data blocked succeeded failed : Status

-- the pull's row of etl.pull_run
pub record Run : Type 0 where
  pub status : Status
  pub fetched : ℕ
  pub rejected : ℕ
  pub valid : ℕ
  pub upserted : ℕ

-- The database: the tables that the stages write, the pull's row, and of the source's row
-- `last_status` and `last_success_watermark`.
pub record Db (D : Type 0) : Type 0 where
  pub tables : D
  pub run : Run
  pub last_status : Option Status
  pub watermark : Option ℕ

pub record Conn (D : Type 0) : Type 0 where
  pub committed : Db D
  pub working : Db D

-- What the other modules do to the tables.
pub record Tables (D : Type 0) : Type 0 where
  pub record_issues : List ValidationIssue → D → D
  pub assess : List Incident → D → Option Assessment
  pub stage_records : List Incident → D → D
  pub promote_to_silver : D → D × ℕ
  pub flag_unmapped_offenses : D → D
  pub clear_staging : D → D
  pub apply : Assessment → Mode → D → Outcome × D
  -- max(occurred_at) of the source's rows in silver
  pub newest_occurred : D → Option ℕ

-- The places where `_ingest` may raise; the last two are in its own handler.
pub data Stage : Type 0 where
  issues assessing staging promoting flagging clearing reconciling finishing marking : Stage
  closing closing_mark : Stage

abbrev pub Faults : Type 0 → Type 0
Faults D = Stage → Option (Db D → Db D)

-- The result of `_reconcile_safely`.
pub data Reconciled : Type 0 where
  error : Reconciled
  applied : Outcome → Reconciled

-- The dictionary that `_ingest` returns.
pub data Return : Type 0 where
  nothing_new : Return
  refused : Return
  promoted : Run → Option Reconciled → Return

pub data Answer (D : Type 0) : Type 0 where
  raised : Conn D → Answer D
  returned : Conn D → Return → Answer D

abbrev pub with_status : Status → Run
with_status status = record { status = status; fetched = 0; rejected = 0; valid = 0; upserted = 0 }

-- What a pull is asked for.
pub record Request : Type 0 where
  pub now : ℕ
  pub bbox : Option BoundingBox
  pub chunk_counts : Dict String ℕ
  pub historical_median : Option ℕ
  pub mode : Mode

abbrev pub is_off : Mode → Bool
is_off mode = elim mode [ off ↦ true | _ ↦ false ]

module _ {D : Type 0} where
  abbrev pub write : (Db D → Db D) → Conn D → Conn D
  write f c = record c { working = f c.working }

  abbrev pub commit : Conn D → Conn D
  commit c = record c { committed = c.working }

  abbrev pub rollback : Conn D → Conn D
  rollback c = record c { working = c.committed }

  abbrev pub on_tables : (D → D) → Db D → Db D
  on_tables f db = record db { tables = f db.tables }

  abbrev pub set_run : Run → Db D → Db D
  set_run run db = record db { run = run }

  -- the update of `_mark_source_failure`
  abbrev pub set_status : Status → Db D → Db D
  set_status status db = record db { last_status = some status }

  -- a statement, and what follows unless it raises
  abbrev pub attempt : Faults D → Stage → (Db D → Db D) → Conn D → (Conn D → Answer D) → Answer D
  attempt faults stage f c next = elim (faults stage) [
    | some junk ↦ raised (write junk c)
    | none ↦ next (write f c)
  ]

  -- `_open_pull`
  abbrev pub open_pull : Db D → Conn D
  open_pull db = commit (record { committed = db; working = set_run (with_status running) db })

  -- `_finish_pull`, inside `_ingest`
  abbrev pub finish_pull : Faults D → Run → Conn D → (Conn D → Answer D) → Answer D
  finish_pull faults run c next = attempt faults finishing (set_run run) c (λ c. next (commit c))

  -- `_mark_source_success` and `_mark_source_failure`, inside `_ingest`
  abbrev pub mark_source : Faults D → (Db D → Db D) → Return → Conn D → Answer D
  mark_source faults update result c =
      attempt faults marking update c (λ c. returned (commit c) result)

module _ {D : Type 0} (t : Tables D) (faults : Faults D) where
  -- the update of `_mark_source_success`
  abbrev pub set_success : Db D → Db D
  set_success db = record db {
    last_status = some succeeded;
    watermark = t.newest_occurred db.tables;
  }

  -- `_reconcile_safely`
  unfoldable pub reconcile_safely : Mode → Option Assessment → Conn D → Option Reconciled × Conn D
  reconcile_safely mode none c = (none, c)
  reconcile_safely mode (some a) c = elim (faults reconciling) [
    | some junk ↦ (some error, rollback (write junk c))
    | none ↦ (
      some (applied (t.apply a mode c.working.tables).0),
      commit (write (on_tables (λ d. (t.apply a mode d).1)) c),
    )
  ]

  -- the assessment, which is made before promotion and never stops a pull
  unfoldable pub assess_safely : Bool → Mode → List Incident → Conn D → Option Assessment × Conn D
  assess_safely reconcile mode records c =
      if reconcile && not (is_off mode)
      then elim (faults assessing) [
        | some junk ↦ (none, commit (rollback (write junk c)))
        | none ↦ (t.assess records c.working.tables, commit c)
      ]
      else (none, c)

  -- from the reconciliation on
  unfoldable pub succeed : Mode → Option Assessment → Run → Conn D → Answer D
  unfolding reconcile_safely
  succeed mode assessment run c =
      let reconciled = reconcile_safely mode assessment c in
      finish_pull faults run reconciled.1
        (λ c. mark_source faults set_success (promoted run reconciled.0) c)

  -- transform and promote
  unfoldable pub promote : Mode → Option Assessment → ℕ → ValidationResult → Conn D → Answer D
  unfolding succeed
  promote mode assessment fetched result c =
      attempt faults staging (on_tables (t.stage_records result.accepted)) c (λ c₁.
        attempt faults promoting (on_tables (λ d. (t.promote_to_silver d).0)) c₁ (λ c₂.
          attempt faults flagging (on_tables t.flag_unmapped_offenses) (commit c₂) (λ c₃.
            attempt faults clearing (on_tables t.clear_staging) c₃ (λ c₄.
              succeed mode assessment
                (record {
                  status = succeeded;
                  fetched = fetched;
                  rejected = result.rejected;
                  valid = length result.accepted;
                  upserted = (t.promote_to_silver c₁.working.tables).1;
                })
                (commit c₄)))))

  -- from validation on
  unfoldable pub checked : Bool → Mode → List Incident → ValidationResult → Conn D → Answer D
  unfolding assess_safely promote
  checked reconcile mode records result c =
      attempt faults issues (on_tables (t.record_issues result.issues)) c (λ c.
        let assessed = assess_safely reconcile mode records (commit c) in
        if result.blocked
        then finish_pull faults
            (record {
              status = blocked;
              fetched = length records;
              rejected = result.rejected;
              valid = length result.accepted;
              upserted = 0;
            })
            (commit c) (mark_source faults (set_status blocked) refused)
        else promote mode assessed.0 (length records) result assessed.1)

  -- the body of the `try`
  unfoldable pub ingest_body : Bool → Request → Option (List Incident) → Conn D → Answer D
  unfolding checked
  ingest_body reconcile q none c = raised c
  ingest_body reconcile q (some records) c =
      if nat_eq (length records) 0
      then finish_pull faults (with_status no_new_data) c (λ c. returned c nothing_new)
      else checked reconcile q.mode records
          (validate_records q.now q.bbox q.chunk_counts q.historical_median records) c

  -- the `except`: the exception goes on in every case
  unfoldable pub close : Conn D → Answer D
  close c =
      attempt faults closing (set_run (with_status failed)) (rollback c)
        (λ c. attempt faults closing_mark (set_status failed) (commit c) (λ c. raised (commit c)))

  unfoldable pub handled : Answer D → Answer D
  unfolding close
  handled (raised c) = close c
  handled (returned c result) = returned c result

  -- `_ingest`
  unfoldable pub ingest : Bool → Request → Option (List Incident) → Db D → Answer D
  unfolding ingest_body handled
  ingest reconcile q fetched db = handled (ingest_body reconcile q fetched (open_pull db))
