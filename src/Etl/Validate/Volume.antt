-- ===== src/Etl/Validate/Volume.antt =====
-- safety/etl/validate.py, `_volume_checks`: record counts far outside the norm. Ratios are compared
-- on whole numbers; a historical median, which can end in a half, comes doubled.
use crime_prevention_and_per.Prelude.{
  ltb, leb, nat_eq, if◌then◌else◌, length, get_elem?, keep, String_eq, ◌==◌, ℕ, ◌*◌, ◌/◌, String,
  not, ◌&&◌, ◌||◌, Option, none, some, List, [], ◌∷◌, ◌++◌, map,
}
use crime_prevention_and_per.Prelude.Sorting.{text_le, sorted}
use crime_prevention_and_per.OrderedDict.{Dict}
use crime_prevention_and_per.Etl.Validate.{Severity, warn, block, ValidationIssue}

abbrev volume_issue : Severity → ℕ → ValidationIssue
volume_issue severity n = record {
  check_name = "volume_anomaly";
  severity = severity;
  occurrences = n;
  sample_ids = [];
}

-- `max(chunk_counts)`, by name
unfoldable pub newest : String → Dict String ℕ → String
newest name [] = name
newest name ((other, n) ∷ rest) = newest (if text_le other name then name else other) rest

abbrev or_zero : Option ℕ → ℕ
or_zero none = 0
or_zero (some n) = n

-- chunks far below the pull's median, but for the newest
unfoldable pub suspicious : Dict String ℕ → Dict String ℕ
unfolding newest
suspicious [] = []
suspicious ((name, n) ∷ rest) =
    let chunks = (name, n) ∷ rest in
    let counts = sorted leb (map (λ x. x.1) chunks) in
    let median = or_zero (get_elem? counts (length counts / 2)) in
    if leb 4 (length chunks) && ltb 0 median
    then keep (λ x. ltb (4 * x.1) median && not (x.0 == newest name rest)) chunks
    else []

abbrev chunk_issues : Dict String ℕ → List ValidationIssue
chunk_issues chunks =
    if nat_eq (length (suspicious chunks)) 0
    then []
    else volume_issue warn (length (suspicious chunks)) ∷ []

-- `ratio < 0.25 or ratio > 4.0`, by twice the median
abbrev history_issues : ℕ → Option ℕ → List ValidationIssue
history_issues fetched none = []
history_issues fetched (some doubled) =
    if ltb 0 doubled && (ltb (8 * fetched) doubled || ltb (2 * doubled) fetched)
    then volume_issue warn 1 ∷ []
    else []

unfoldable pub volume_checks : ℕ → ℕ → Dict String ℕ → Option ℕ → List ValidationIssue
unfolding suspicious
volume_checks fetched accepted chunks doubled_median =
    if ltb 0 fetched && nat_eq accepted 0
    then volume_issue block 1 ∷ []
    else chunk_issues chunks ++ history_issues fetched doubled_median
