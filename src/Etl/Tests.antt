-- ===== src/Etl/Tests.antt =====
-- The theorems on withdrawn records and pending changes at concrete inputs.
mod Dates
mod Ingests
mod Pulls
mod Promotions
mod Schedules
mod Histories
use crime_prevention_and_per.Prelude.{
  length, keep, All, String_eq, ℕ, zero, suc, ◌+◌, ◌*◌, ◌≤◌, ◌<◌, String, ◌≡◌, refl, ◌↔◌, Option,
  none, some, List, [], ◌∷◌,
}
use crime_prevention_and_per.Prelude.Sorting.{sorted}
use crime_prevention_and_per.OrderedDict.{lookup, put}
use crime_prevention_and_per.Etl.Pending.{mark, pending_of}
use crime_prevention_and_per.Etl.Pending.Marks.{Covers, mark_all, mark_all-Covers}
use crime_prevention_and_per.Etl.Withdrawn.{
  delete, occurred, Row, day_s, remove_all, decide, Assessment, in_scope, assess,
}
use crime_prevention_and_per.Etl.Withdrawn.Apply.{Database, doomed, delete_absent, apply}
use crime_prevention_and_per.Etl.Withdrawn.Archive.{
  in_silver, in_archive, apply-total, delete_absent-Covers,
}
use crime_prevention_and_per.Etl.Withdrawn.Counts.{assess_guard}
use crime_prevention_and_per.Etl.Withdrawn.Deletion.{is_safe, apply_keeps}
use crime_prevention_and_per.Etl.Withdrawn.Guard.{LooksWhole, Confirmed, decide_lem}

abbrev marks : List (String × Option ℕ)
marks = ("seattle", some 20) ∷ ("austin", none) ∷ ("seattle", some 12) ∷ ("austin", some 3) ∷ []

abbrev row : String → Row
row key = record {
  source_id = "seattle";
  dataset = "spd";
  incident_key = key;
  occurred_day = 100;
  reported_day = none;
}

-- Ten rows that the pull confirms, and one that it does not.
abbrev confirmed_rows : ℕ → List Row
confirmed_rows zero = row "seattle:gone" ∷ []
confirmed_rows (suc n) = row "seattle:kept" ∷ confirmed_rows n

abbrev month_of : Row → String
month_of r = "1970-04"

abbrev one_gone : Assessment
one_gone = record {
  source_id = "seattle";
  dataset = "spd";
  basis = occurred;
  lo = 91;
  hi = 199;
  prior = 11;
  absent_keys = "seattle:gone" ∷ [];
  strata = record { name = "1970-04"; prior = 11; absent = 1 } ∷ [];
  decision = remove_all;
}

one_gone_assessed :
    assess month_of
      (confirmed_rows 10)
      (some occurred)
      "seattle"
      "spd"
      ("seattle:kept" ∷ [])
      (90 * day_s)
      (300 * day_s)
      (200 * day_s + 5)
    ≡ some one_gone
unfolding assess lookup put sorted
one_gone_assessed = refl

assess_guard_example :
    let held = keep (in_scope "seattle" "spd" occurred 91 199) (confirmed_rows 10) in
    (0 < length one_gone.absent_keys)
    × (10 * length one_gone.absent_keys ≤ length held)
    × All LooksWhole one_gone.strata
assess_guard_example =
    assess_guard month_of (confirmed_rows 10) (some occurred) "seattle" "spd" ("seattle:kept" ∷ [])
      (90 * day_s) (300 * day_s) (200 * day_s + 5) one_gone one_gone_assessed refl

abbrev database : Database
database = record { silver = confirmed_rows 3; archive = []; marks = []; issues = [] }

apply_keeps_example :
    keep (is_safe ("seattle:kept" ∷ []) one_gone) (apply database 7 one_gone delete).1.silver
    ≡ keep (is_safe ("seattle:kept" ∷ []) one_gone) database.silver
apply_keeps_example =
    apply_keeps month_of (confirmed_rows 10) (some occurred) "seattle" "spd" ("seattle:kept" ∷ [])
      (90 * day_s) (300 * day_s) (200 * day_s + 5) one_gone database 7 delete one_gone_assessed

the_absent_row_goes : length (apply database 7 one_gone delete).1.silver ≡ 3
unfolding apply mark in_scope
the_absent_row_goes = refl

abbrev one_each : Row → ℕ
one_each r = 1

apply-total_example :
    let db' = (apply database 7 one_gone delete).1 in
    in_silver one_each db' + in_archive one_each db'
    ≡ in_silver one_each database + in_archive one_each database
apply-total_example = apply-total one_each database 7 one_gone delete

delete_absent-Covers_example :
    All
      (λ r.
        Covers
          (pending_of (delete_absent database 7 one_gone).1.marks one_gone.source_id)
          (some r.occurred_day))
      (keep (doomed one_gone) database.silver)
delete_absent-Covers_example = delete_absent-Covers database 7 one_gone
