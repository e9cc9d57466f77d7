-- ===== src/Etl/Validate/Result.antt =====
-- safety/etl/validate.py, `validate_records`: the loop's counts as issues, and whether they block.
use crime_prevention_and_per.Prelude.{
  if◌then◌else◌, length, take, any, sum_by, String_eq, elem, ℕ, String, Bool, true, false, Option,
  List, [], ◌∷◌, ◌++◌, map,
}
use crime_prevention_and_per.Prelude.Sorting.{text_le, sorted}
use crime_prevention_and_per.OrderedDict.{Dict}
use crime_prevention_and_per.Etl.Validate.{
  Incident, reject, warn, block, ValidationIssue, BoundingBox, Checked, nothing_checked, samples_of,
  check_all,
}
use crime_prevention_and_per.Etl.Validate.Volume.{volume_checks}

pub record ValidationResult : Type 0 where
  pub accepted : List Incident
  pub issues : List ValidationIssue
  pub rejected : ℕ
  pub blocked : Bool

abbrev pub is_block : ValidationIssue → Bool
is_block i = elim i.severity [ block ↦ true | _ ↦ false ]

abbrev pub reject_issues : Checked → List ValidationIssue
reject_issues c =
    map
      (λ x. record {
        check_name = x.0;
        severity = reject;
        occurrences = x.1;
        sample_ids = samples_of x.0 c.samples;
      })
      c.rejected_by_check

abbrev pub reprojected_issues : Checked → List ValidationIssue
reprojected_issues c = elim c.reprojected [
  | [] ↦ []
  | _ ↦
      record {
        check_name = "coordinates_reprojected";
        severity = warn;
        occurrences = sum_by (λ x. x.1) c.reprojected;
        sample_ids = [];
      }
      ∷ []
]

-- `set(ids)`, each once, and its sorted first ten
unfoldable pub distinct_ids : List String → List String
distinct_ids [] = []
distinct_ids (k ∷ ks) = let rest = distinct_ids ks in if elem k rest then rest else k ∷ rest

abbrev pub duplicate_issues : Checked → List ValidationIssue
duplicate_issues c = elim c.duplicate_ids [
  | [] ↦ []
  | _ ↦
      record {
        check_name = "duplicate_incident_id";
        severity = warn;
        occurrences = length c.duplicate_ids;
        sample_ids = take 10 (sorted text_le (distinct_ids c.duplicate_ids));
      }
      ∷ []
]

unfoldable pub validate_records :
    ℕ → Option BoundingBox → Dict String ℕ → Option ℕ → List Incident → ValidationResult
unfolding check_all volume_checks distinct_ids
validate_records now bbox chunks doubled_median records =
    let c = check_all now bbox records nothing_checked in
    let issues =
      reject_issues c
      ++ (reprojected_issues c
          ++ (duplicate_issues c
              ++ volume_checks (length records) (length c.accepted) chunks doubled_median)) in
    record {
      accepted = c.accepted;
      issues = issues;
      rejected = sum_by (λ x. x.1) c.rejected_by_check;
      blocked = any is_block issues;
    }
