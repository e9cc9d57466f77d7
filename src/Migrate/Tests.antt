-- ===== src/Migrate/Tests.antt =====
-- The theorems on migrations, schemes and backfills at concrete inputs.
use crime_prevention_and_per.Prelude.{
  ltb, nat_eq, if◌then◌else◌, length, any, pair_eq, String_eq, ℕ, ◌+◌, ◌*◌, String, ◌≡◌, refl, true,
  Option, none, some, List, [], ◌∷◌, ◌++◌, arith,
}
use crime_prevention_and_per.Migrate.Schema.{File, Database, apply_migrations}
use crime_prevention_and_per.Migrate.Schema.Resume.{apply_migrations-resume}
use crime_prevention_and_per.Migrate.Schemes.{Reference}
use crime_prevention_and_per.Migrate.Weights.{copy_inherited_weights}
use crime_prevention_and_per.Migrate.Weights.Inherited.{copy-inherits}
use crime_prevention_and_per.Migrate.Lock.{poll}
use crime_prevention_and_per.Migrate.Lock.Waits.{Decides, poll_lem}
use crime_prevention_and_per.Migrate.Hours.{SilverRow, audit, backfill_hour}
use crime_prevention_and_per.Migrate.Hours.Filled.{backfilled, backfill_hour_lem}
use crime_prevention_and_per.OrderedDict.{lookup, Dict}

-- three files, listed out of order
abbrev tables_file : File
tables_file = record { name = "0001_tables.sql"; bytes = 1 ∷ 13 ∷ 10 ∷ [] }

abbrev index_file : File
index_file = record { name = "0002_index.sql"; bytes = 2 ∷ [] }

abbrev hours_file : File
hours_file = record { name = "0003_hours.sql"; bytes = 3 ∷ [] }

abbrev sql_files : List File
sql_files = hours_file ∷ tables_file ∷ index_file ∷ []

abbrev digest : List ℕ → String
digest bytes = if nat_eq (length bytes) 2 then "two" else "other"

-- A schema is the texts that ran; the first time the database refuses the third.
abbrev runs_two : List ℕ → List (List ℕ) → Option (List (List ℕ))
runs_two bytes s = if any (λ c. nat_eq c 3) bytes then none else some (s ++ bytes ∷ [])

abbrev runs : List ℕ → List (List ℕ) → Option (List (List ℕ))
runs bytes s = some (s ++ bytes ∷ [])

-- The first file was applied before checksums were kept.
abbrev applied_one : Database (List (List ℕ))
applied_one = record { schema = (1 ∷ 13 ∷ 10 ∷ []) ∷ []; ledger = ("0001_tables.sql", none) ∷ [] }

stops_at_third :
    (apply_migrations digest runs_two sql_files applied_one).applied ≡ "0002_index.sql" ∷ []
unfolding apply_migrations
stops_at_third = refl

runs_goes_on :
    (bytes : List ℕ) (s s' : List (List ℕ)) → runs_two bytes s ≡ some s' → runs bytes s ≡ some s'
runs_goes_on bytes s s' h = ground arith

apply_migrations-resume_example :
    let r = apply_migrations digest runs_two sql_files applied_one in
    let later = apply_migrations digest runs sql_files r.db in
    let whole = apply_migrations digest runs sql_files applied_one in
    (later.db ≡ whole.db)
    × (r.applied ++ later.applied ≡ whole.applied)
    × (later.raised ≡ whole.raised)
apply_migrations-resume_example =
    apply_migrations-resume digest runs_two runs runs_goes_on sql_files applied_one
      ((refl, (refl, tt)), ((refl, tt), (tt, tt)))

abbrev two_schemes : Reference
two_schemes = record {
  schemes = ("v1", true) ∷ [];
  registry = record { source_id = "sea"; scheme_version = some "v1" } ∷ [];
  cell_hour_safety = "v1" ∷ "v2" ∷ [];
  cell_safety = "v1" ∷ [];
}

abbrev weights : Dict (String × String) ℕ
weights = (("v1", "homicide"), 100) ∷ (("v1", "theft"), 5) ∷ (("v2", "theft"), 1) ∷ []

copy-inherits_example :
    let copies = copy_inherited_weights (("v1", "") ∷ ("v2", "v1") ∷ []) weights in
    lookup ("v2", "theft") copies ≡ some 5
unfolding copy_inherited_weights lookup
copy-inherits_example =
    copy-inherits (("v1", "") ∷ []) [] "v2" "v1" "theft" 5 weights (refl, (refl, (refl, tt))) refl
      refl tt tt refl

poll_lem_example :
    Decides
      (λ n. ltb 2 n)
      (λ n. 7 + n * 5)
      (7 + 8)
      (poll (λ n. ltb 2 n) (λ n. 7 + n * 5) (7 + 8) 3 0)
poll_lem_example = poll_lem (λ n. ltb 2 n) (λ n. 7 + n * 5) 7 8 5 2 (λ n. omega arith) (omega arith)

abbrev noon : Option ℕ → ℕ → SilverRow
noon hour second = record { utc_day = 5; utc_second = second; local_date = 5; local_hour = hour }

abbrev rows : List SilverRow
rows = noon none 0 ∷ noon none 43_200 ∷ noon (some 3) 10_800 ∷ []

fills_one : (backfilled (audit rows) rows).1 ≡ 1
unfolding audit
fills_one = refl

backfill_hour_lem_example : backfill_hour 4 rows ≡ some (backfilled (audit rows) rows)
backfill_hour_lem_example = backfill_hour_lem 4 rows (omega arith)
