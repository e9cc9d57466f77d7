-- ===== src/Migrate/Schema/Checks.antt =====
-- safety/migrate.py, `verify_checksums`: rows that a later check neither refuses nor changes.
use crime_prevention_and_per.Prelude.{
  if◌then◌else◌, Option-cases, any, All, All-zip, String_eq, ◌==◌, ℕ, String, ◌≡◌, refl, inl, inr,
  Bool, true, false, Option, none, some, List, [], ◌∷◌, map, arith, eq_iff,
}
use crime_prevention_and_per.OrderedDict.{lookup}
use crime_prevention_and_per.Migrate.Schema.{
  File, Ledger, by_name, migration_checksum, edited, adopt, verify_checksums,
}
use crime_prevention_and_per.Prelude.Sorting.{insert, sorted, All-insert, All-sorted}

-- No two files have one name.
abbrev pub AreNamed : List File → Type 0
AreNamed [] = Unit
AreNamed (f ∷ files) = All (λ g. (f.name == g.name) ≡ false) files × AreNamed files

pub name_sym : (f g : File) → (f.name == g.name) ≡ false → (g.name == f.name) ≡ false
name_sym f g h = ground (arith, eq_iff f.name g.name, eq_iff g.name f.name)

module _ (sha256 : List ℕ → String) where
  -- A row that a check neither refuses nor changes.
  abbrev pub IsFine : List File → String × Option String → Type 0
  IsFine files row = (edited sha256 files row ≡ false) × (adopt sha256 files row ≡ row)

  abbrev pub entry_of : File → String × Option String
  entry_of f = (f.name, some (migration_checksum sha256 f))

  pub adopt-IsFine :
      (files : List File) (row : String × Option String)
      → edited sha256 files row ≡ false
      → IsFine files (adopt sha256 files row)
  unfolding edited adopt
  adopt-IsFine files (name, some checksum) h = (h, refl)
  adopt-IsFine files (name, none) h = elim (Option-cases (lookup name (by_name files))) [
    | inl gone ↦ ground arith
    | inr (f, found) ↦ let c = migration_checksum sha256 f in ground (arith, eq_iff c c)
  ]

  pub All-adopt :
      (files : List File) (rows : Ledger)
      → any (edited sha256 files) rows ≡ false
      → All (IsFine files) (map (adopt sha256 files) rows)
  All-adopt files [] h = tt
  All-adopt files (row ∷ rows) h =
      (adopt-IsFine files row (ground arith), All-adopt files rows (ground arith))

  pub verify_fine :
      (files : List File) (rows : Ledger)
      → All (IsFine files) rows
      → verify_checksums sha256 files rows ≡ some rows
  unfolding verify_checksums
  verify_fine files [] h = refl
  verify_fine files (row ∷ rows) h = ground (arith, verify_fine files rows h.1)

  pub entry-IsFine :
      (files : List File) (f : File)
      → lookup f.name (by_name files) ≡ some f
      → IsFine files (entry_of f)
  unfolding edited adopt
  entry-IsFine files f found = let c = migration_checksum sha256 f in ground (arith, eq_iff c c)

pub lookup_named :
    (files : List File) → AreNamed files → All (λ f. lookup f.name (by_name files) ≡ some f) files
unfolding lookup
lookup_named [] h = tt
lookup_named (f ∷ files) h = (
  ground (arith, eq_iff f.name f.name),
  All-zip _ _ _ files (λ g p q. rw p q) h.0 (lookup_named files h.1),
)

module _ (le : File → File → Bool) where
  AreNamed-insert :
      (f : File) (files : List File)
      → All (λ g. (f.name == g.name) ≡ false) files
      → AreNamed files
      → AreNamed (insert le f files)
  unfolding insert
  AreNamed-insert f [] h named = (tt, tt)
  AreNamed-insert f (g ∷ files) h named =
      elim (le f g) as (λ b. AreNamed (if b then f ∷ g ∷ files else g ∷ insert le f files)) [
        | true ↦ (h, named)
        | false ↦ (
          All-insert le _ f files (name_sym f g h.0) named.0,
          AreNamed-insert f files h.1 named.1,
        )
      ]

  pub AreNamed-sorted : (files : List File) → AreNamed files → AreNamed (sorted le files)
  unfolding sorted
  AreNamed-sorted [] named = tt
  AreNamed-sorted (f ∷ files) named =
      AreNamed-insert f (sorted le files) (All-sorted le _ files named.0)
        (AreNamed-sorted files named.1)
