-- ===== src/Etl/Validate/Issues.antt =====
-- What the issues of a pull say, and what blocks it.
use crime_prevention_and_per.Prelude.{
  ltb, nat_eq, length, any, String_eq, ℕ, String, ◌≡◌, refl, false, ◌&&◌, ◌||◌, Option, none, some,
  List, [], ◌∷◌, ◌++◌, map, arith,
}
use crime_prevention_and_per.OrderedDict.{Dict}
use crime_prevention_and_per.Etl.Validate.{
  Incident, reject, ValidationIssue, BoundingBox, Checked, nothing_checked, samples_of, check_all,
}
use crime_prevention_and_per.Etl.Validate.Volume.{volume_checks}
use crime_prevention_and_per.Etl.Validate.Result.{
  is_block, reject_issues, reprojected_issues, duplicate_issues, validate_records,
}

any-append :
    (xs ys : List ValidationIssue) → any is_block (xs ++ ys) ≡ (any is_block xs || any is_block ys)
any-append [] ys = ground arith
any-append (x ∷ xs) ys = ground (arith, any-append xs ys)

reject_issues_pass :
    (d : Dict String ℕ) (samples : Dict String (List String))
    → any is_block (
        map
          (λ x. record {
            check_name = x.0;
            severity = reject;
            occurrences = x.1;
            sample_ids = samples_of x.0 samples;
          })
          d)
      ≡ false
reject_issues_pass [] samples = refl
reject_issues_pass (x ∷ d) samples = reject_issues_pass d samples

reprojected_issues_pass :
    (d : Dict String ℕ) (c : Checked)
    → c.reprojected ≡ d
    → any is_block (reprojected_issues c) ≡ false
reprojected_issues_pass [] c p = rw p refl
reprojected_issues_pass (x ∷ d) c p = rw p refl

duplicate_issues_pass :
    (ids : List String) (c : Checked)
    → c.duplicate_ids ≡ ids
    → any is_block (duplicate_issues c) ≡ false
duplicate_issues_pass [] c p = rw p refl
duplicate_issues_pass (x ∷ ids) c p = rw p refl

volume_checks_block :
    (fetched accepted : ℕ) (chunks : Dict String ℕ) (doubled_median : Option ℕ)
    → any is_block (volume_checks fetched accepted chunks doubled_median)
      ≡ (ltb 0 fetched && nat_eq accepted 0)
unfolding volume_checks
volume_checks_block fetched accepted chunks none = ground arith
volume_checks_block fetched accepted chunks (some m) = ground arith

-- A pull is blocked exactly if it fetched something and no record of it can be promoted: neither
-- other checks nor the counts of chunks or of earlier pulls ever block one.
pub validate_records-blocked :
    (now : ℕ) (bbox : Option BoundingBox) (chunks : Dict String ℕ) (doubled_median : Option ℕ)
    (records : List Incident)
    → let result = validate_records now bbox chunks doubled_median records in
      result.blocked ≡ (ltb 0 (length records) && nat_eq (length result.accepted) 0)
unfolding validate_records
validate_records-blocked now bbox chunks doubled_median records =
    let c = check_all now bbox records nothing_checked in
    let volume = volume_checks (length records) (length c.accepted) chunks doubled_median in
    rw
      (
        any-append (reject_issues c) (reprojected_issues c ++ (duplicate_issues c ++ volume)),
        reject_issues_pass c.rejected_by_check c.samples,
        any-append (reprojected_issues c) (duplicate_issues c ++ volume),
        reprojected_issues_pass c.reprojected c refl,
        any-append (duplicate_issues c) volume,
        duplicate_issues_pass c.duplicate_ids c refl,
      )
      (volume_checks_block (length records) (length c.accepted) chunks doubled_median)
