-- ===== src/Etl/Withdrawn/Apply.antt =====
-- safety/etl/withdrawn.py, `apply`: report what is absent, or delete and archive it.
-- The tables are lists of rows; the caller's transaction makes it one step.
use crime_prevention_and_per.Prelude.{
  nat_eq, if◌then◌else◌, length, keep, String_eq, elem, ℕ, min, String, Bool, not, ◌&&◌, Option,
  none, some, List, [], ◌∷◌, ◌++◌, map,
}
use crime_prevention_and_per.Etl.Pending.{Marks, mark}
use crime_prevention_and_per.Etl.Withdrawn.{
  Mode, off, report, delete, Row, Decision, nothing, remove_all, skip, Assessment, in_scope,
}

pub record Archived : Type 0 where
  pub pull_id : ℕ
  pub row : Row

pub data Action : Type 0 where
  no_action skipped deleted reported_only : Action

-- The `withdrawn_upstream` warning: pull, source, absent rows, and what its detail says of the
-- action.
pub record Issue : Type 0 where
  pub pull_id : ℕ
  pub source_id : String
  pub absent : ℕ
  pub action : Action
  pub deleted_rows : ℕ

pub record Database : Type 0 where
  pub silver : List Row
  pub archive : List Archived
  pub marks : Marks
  pub issues : List Issue

pub record Outcome : Type 0 where
  pub action : Action
  pub absent : ℕ
  pub deleted_rows : ℕ
  pub prior : ℕ

-- the condition of `_DELETE_SQL`
abbrev pub doomed : Assessment → Row → Bool
doomed a r = in_scope a.source_id a.dataset a.basis a.lo a.hi r && elem r.incident_key a.absent_keys

-- `_DELETE_SQL`: every deleted row goes to the archive
unfoldable pub delete_rows : Database → ℕ → Assessment → Database
delete_rows db pull a = record db {
  silver = keep (λ r. not (doomed a r)) db.silver;
  archive = db.archive ++ map (λ r. record { pull_id = pull; row = r }) (keep (doomed a) db.silver);
}

-- `SELECT min(occurred_local_date) ... WHERE pull_id = ...`
unfoldable pub earliest : ℕ → List Archived → Option ℕ
earliest pull [] = none
earliest pull (x ∷ xs) =
    let rest = earliest pull xs in
    if nat_eq x.pull_id pull
    then elim rest [ none ↦ some x.row.occurred_day | some d ↦ some (min x.row.occurred_day d) ]
    else rest

abbrev pub issue_of : ℕ → Assessment → Action → ℕ → Issue
issue_of pull a action n = record {
  pull_id = pull;
  source_id = a.source_id;
  absent = length a.absent_keys;
  action = action;
  deleted_rows = n;
}

abbrev pub noted : Database → ℕ → Assessment → Action → ℕ → Outcome × Database
noted db pull a action n = (
  record { action = action; absent = length a.absent_keys; deleted_rows = n; prior = a.prior },
  record db { issues = db.issues ++ issue_of pull a action n ∷ [] },
)

-- the deletion itself, the city's mark if a row went, and the issue
unfoldable pub delete_absent : Database → ℕ → Assessment → Outcome × Database
unfolding delete_rows earliest
delete_absent db pull a =
    let n = length (keep (doomed a) db.silver) in
    let db' = delete_rows db pull a in
    if nat_eq n 0
    then noted db' pull a deleted n
    else noted (record db' { marks = mark db'.marks a.source_id (earliest pull db'.archive) }) pull
        a deleted n

unfoldable pub apply_decision : Decision → Mode → Database → ℕ → Assessment → Outcome × Database
unfolding delete_absent
apply_decision nothing mode db pull a =
    (record { action = no_action; absent = 0; deleted_rows = 0; prior = a.prior }, db)
apply_decision (skip reason) mode db pull a = noted db pull a skipped 0
apply_decision remove_all delete db pull a = delete_absent db pull a
apply_decision remove_all off db pull a = noted db pull a reported_only 0
apply_decision remove_all report db pull a = noted db pull a reported_only 0

-- `apply`
unfoldable pub apply : Database → ℕ → Assessment → Mode → Outcome × Database
unfolding apply_decision
apply db pull a mode = apply_decision a.decision mode db pull a
