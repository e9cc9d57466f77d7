-- ===== src/Migrate/Hours.antt =====
-- safety/migrate.py, `_backfill_hour_for_source`: the clock hours of rows that were loaded without
-- one. A row's time is the second of its day at UTC; the audit's shares are compared by whole
-- numbers, and `LIMIT` takes the first rows that fit.
pub mod Filled
use crime_prevention_and_per.Prelude.{
  ltb, nat_eq, if◌then◌else◌, length, keep, all, ℕ, zero, suc, ◌+◌, ◌-◌, ◌*◌, ◌/◌, Bool, true,
  false, not, ◌&&◌, ◌||◌, Option, none, some, List, [], ◌∷◌,
}

pub record SilverRow : Type 0 where
  pub utc_day : ℕ
  pub utc_second : ℕ
  pub local_date : ℕ
  pub local_hour : Option ℕ

abbrev pub utc_hour : SilverRow → ℕ
utc_hour r = r.utc_second / 3600

abbrev pub is_null : SilverRow → Bool
is_null r = elim r.local_hour [ none ↦ true | some _ ↦ false ]

abbrev pub count_if : (SilverRow → Bool) → List SilverRow → ℕ
count_if p rows = length (keep p rows)

-- `count(DISTINCT ...) <= 1`: every row has the first one's hour
abbrev pub same_hour : List SilverRow → Bool
same_hour [] = true
same_hour (r ∷ rows) = all (λ x. nat_eq (utc_hour x) (utc_hour r)) rows

pub data Audit : Type 0 where
  nothing_to_do no_time_of_day not_local : Audit
  fills : Bool → Audit

-- the decisions on what `_HOUR_AUDIT_SQL` counts; `fills` says whether midnight is skipped
unfoldable pub audit : List SilverRow → Audit
audit rows =
    let total = length rows in
    if nat_eq total 0 || nat_eq (count_if is_null rows) 0
    then nothing_to_do
    else if same_hour rows
    then no_time_of_day
    else if ltb (100 * count_if (λ r. nat_eq r.utc_day r.local_date) rows) (99 * total)
    then not_local
    else fills (ltb total (10 * count_if (λ r. nat_eq r.utc_second 0) rows))

-- the rows that `_HOUR_BACKFILL_SQL` selects
abbrev pub is_due : Bool → SilverRow → Bool
is_due skip_midnight r = is_null r && (not skip_midnight || not (nat_eq r.utc_second 0))

abbrev pub filled : SilverRow → SilverRow
filled r = record r { local_hour = some (utc_hour r) }

-- one statement: the rows after it, and how many of the batch are left over
unfoldable pub fill_batch : Bool → ℕ → List SilverRow → List SilverRow × ℕ
fill_batch skip batch [] = ([], batch)
fill_batch skip batch (r ∷ rows) =
    let takes = is_due skip r && ltb 0 batch in
    let rest = fill_batch skip (if takes then batch - 1 else batch) rows in
    ((if takes then filled r else r) ∷ rest.0, rest.1)

-- the loop: until a statement writes nothing
unfoldable pub fill_all : Bool → ℕ → ℕ → List SilverRow → Option (List SilverRow × ℕ)
unfolding fill_batch
fill_all skip batch zero rows = none
fill_all skip batch (suc fuel) rows =
    let step = fill_batch skip batch rows in
    let rest = fill_all skip batch fuel step.0 in
    if nat_eq step.1 batch
    then some (step.0, 0)
    else elim rest [ none ↦ none | some (done, n) ↦ some (done, batch - step.1 + n) ]

abbrev pub backfill_batch : ℕ
backfill_batch = 50_000

-- the rest of `_backfill_hour_for_source`
unfoldable pub backfill_on : Audit → ℕ → List SilverRow → Option (List SilverRow × ℕ)
unfolding fill_all
backfill_on nothing_to_do fuel rows = some (rows, 0)
backfill_on no_time_of_day fuel rows = some (rows, 0)
backfill_on not_local fuel rows = some (rows, 0)
backfill_on (fills skip) fuel rows = fill_all skip backfill_batch fuel rows

-- `_backfill_hour_for_source`: the rows after it, and how many it filled
unfoldable pub backfill_hour : ℕ → List SilverRow → Option (List SilverRow × ℕ)
unfolding audit backfill_on
backfill_hour fuel rows = backfill_on (audit rows) fuel rows
