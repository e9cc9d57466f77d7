-- ===== src/Migrate/Schema.antt =====
-- safety/migrate.py: which migrations are applied, and the table that records them. A file is its
-- name and its bytes; `sha256` is the library's. `run` is what the database does with a file's
-- text: none if a statement raises, and then that migration's transaction is rolled back.
pub mod Checks
pub mod Loop
pub mod Resume
use crime_prevention_and_per.Prelude.{
  nat_eq, if◌then◌else◌, any, String_eq, ◌==◌, elem, ℕ, String, Bool, true, false, not, ◌&&◌,
  Option, none, some, List, [], ◌∷◌, ◌++◌, map,
}
use crime_prevention_and_per.Prelude.Sorting.{text_le, sorted}
use crime_prevention_and_per.OrderedDict.{lookup, Dict}

pub record File : Type 0 where
  pub name : String
  pub bytes : List ℕ

-- the rows of public.schema_migration, oldest first: filename and checksum
abbrev pub Ledger : Type 0
Ledger = Dict String (Option String)

abbrev pub starts_lf : List ℕ → Bool
starts_lf [] = false
starts_lf (c ∷ _) = nat_eq c 10

-- `.replace(b"\r\n", b"\n")`
unfoldable pub unix_lines : List ℕ → List ℕ
unix_lines [] = []
unix_lines (c ∷ cs) =
    let rest = unix_lines cs in if nat_eq c 13 && starts_lf cs then rest else c ∷ rest

-- `{p.name: p for p in paths}`
abbrev pub by_name : List File → Dict String File
by_name files = map (λ f. (f.name, f)) files

abbrev pub names {ℓ} : {V : Type ℓ} → Dict String V → List String
names rows = map (λ r. r.0) rows

pub record Database (S : Type 0) : Type 0 where
  pub schema : S
  pub ledger : Ledger

-- What `apply_migrations` leaves, lists, and whether it raised.
pub record MigrationRun (S : Type 0) : Type 0 where
  pub db : Database S
  pub applied : List String
  pub raised : Bool

module _ (sha256 : List ℕ → String) where
  unfoldable pub migration_checksum : File → String
  unfolding unix_lines
  migration_checksum f = sha256 (unix_lines f.bytes)

  -- a row of `bad`
  unfoldable pub edited : List File → String × Option String → Bool
  unfolding lookup
  edited files (name, none) = false
  edited files (name, some checksum) = elim (lookup name (by_name files)) [
    | none ↦ false
    | some f ↦ not (checksum == "") && not (migration_checksum f == checksum)
  ]

  -- a row after the update of `adopt`
  unfoldable pub adopt : List File → String × Option String → String × Option String
  unfolding lookup
  adopt files (name, some checksum) = (name, some checksum)
  adopt files (name, none) = elim (lookup name (by_name files)) [
    | none ↦ (name, none)
    | some f ↦ (name, some (migration_checksum f))
  ]

  -- `verify_checksums`; none is MigrationChecksumError
  unfoldable pub verify_checksums : List File → Ledger → Option Ledger
  unfolding edited adopt
  verify_checksums files ledger =
      if any (edited files) ledger then none else some (map (adopt files) ledger)

  module _ {S : Type 0} (run : List ℕ → S → Option S) where
    abbrev pub stopped : Bool → Database S → MigrationRun S
    stopped raised db = record { db = db; applied = []; raised = raised }

    abbrev pub recorded : File → S → Database S → Database S
    recorded f schema db = record {
      schema = schema;
      ledger = db.ledger ++ (f.name, some (migration_checksum f)) ∷ [];
    }

    abbrev pub listing : String → MigrationRun S → MigrationRun S
    listing name r = record r { applied = name ∷ r.applied }

    -- the loop of `apply_migrations`
    unfoldable pub apply_each : List String → List File → Database S → MigrationRun S
    apply_each already [] db = stopped false db
    apply_each already (f ∷ files) db =
        let skipped = apply_each already files db in
        if elem f.name already then skipped else elim (run f.bytes db.schema) [
          | none ↦ stopped true db
          | some schema ↦ listing f.name (apply_each already files (recorded f schema db))
        ]

    -- `apply_migrations`, on the sorted files
    unfoldable pub apply_sorted : List File → Database S → MigrationRun S
    unfolding verify_checksums apply_each
    apply_sorted files db = elim (verify_checksums files db.ledger) [
      | none ↦ stopped true db
      | some ledger ↦ apply_each (names ledger) files (record db { ledger = ledger })
    ]

    -- `apply_migrations`, on what the directory holds
    unfoldable pub apply_migrations : List File → Database S → MigrationRun S
    unfolding apply_sorted sorted
    apply_migrations glob db = apply_sorted (sorted (λ f g. text_le f.name g.name) glob) db
