-- ===== src/Migrate/Schema/Resume.antt =====
-- safety/migrate.py, `apply_migrations`: a run that failed, and the run after it.
use crime_prevention_and_per.Prelude.{
  Bool-cases, any, All, All-all, All-zip, any-append, All-map, String_eq, ◌==◌, elem, ℕ, String,
  ◌≡◌, refl, ap, inl, inr, true, false, ◌||◌, Option, some, List, [], ◌∷◌, ◌++◌, map, arith, eq_iff,
}
use crime_prevention_and_per.Migrate.Schema.{
  File, names, Database, MigrationRun, edited, adopt, verify_checksums, stopped, apply_each,
  apply_sorted, apply_migrations,
}
use crime_prevention_and_per.Migrate.Schema.Checks.{
  AreNamed, IsFine, All-adopt, verify_fine, entry-IsFine, lookup_named, AreNamed-sorted,
}
use crime_prevention_and_per.Migrate.Schema.Loop.{
  apply_each_skip, apply_each_go, apply_each_ind, names-apply_each, All-apply_each, apply_each_same,
}
use crime_prevention_and_per.Prelude.Sorting.{sorted}

module _ (sha256 : List ℕ → String) {S : Type 0} (run₁ run₂ : List ℕ → S → Option S)
    (again : (bytes : List ℕ) (s s' : S) → run₁ bytes s ≡ some s' → run₂ bytes s ≡ some s') where
  -- What the second run is to the first, which started from `db` and ended in `r`.
  abbrev Resumes : List String → List File → Database S → MigrationRun S → Type 0
  Resumes A files db r =
      (B : List String)
      → AreNamed files
      → All (λ f. elem f.name B ≡ (elem f.name A || elem f.name r.applied)) files
      → let later = apply_each sha256 run₂ B files r.db in
        let whole = apply_each sha256 run₂ A files db in
        (later.db ≡ whole.db)
        × (r.applied ++ later.applied ≡ whole.applied)
        × (later.raised ≡ whole.raised)

  stop-Resumes :
      (A : List String) (files : List File) (db : Database S)
      → Resumes A files db (stopped sha256 run₁ true db)
  stop-Resumes A files db B named same =
      rw
        (apply_each_same sha256 run₂ A B files db
          (All-zip _ _ _ files (λ f p q. ground arith) same same))
        (refl, refl, refl)

  nil-Resumes : (A : List String) (db : Database S) → Resumes A [] db (stopped sha256 run₁ false db)
  unfolding apply_each
  nil-Resumes A db B named same = (refl, refl, refl)

  apply_each-Resumes :
      (A : List String) (files : List File) (db : Database S)
      → Resumes A files db (apply_each sha256 run₁ A files db)
  apply_each-Resumes A =
      apply_each_ind sha256 run₁ A (Resumes A) (nil-Resumes A)
        (λ f files db r known ih B named same. rw (apply_each_skip sha256 run₂ A f files db known) (
          rw (apply_each_skip sha256 run₂ B f files r.db (ground (arith, same.0)))
            (ih B named.1 same.1)))
        (λ f files db new stuck. stop-Resumes A (f ∷ files) db)
        (λ f files db s r new went ih B named same.
          let known : elem f.name B ≡ true = ground (arith, same.0, eq_iff f.name f.name) in
          let rest =
            ih B named.1 (All-zip _ _ _ files (λ g p q. ground (arith, p, q)) named.0 same.1) in
          rw (apply_each_skip sha256 run₂ B f files r.db known) (
            rw (apply_each_go sha256 run₂ A f files db s new (again _ _ _ went))
              (rest.0, ap (λ l. f.name ∷ l) rest.1, rest.2)))

  module _ (files : List File) (db : Database S) where
    abbrev started : Database S
    started = record db { ledger = map (adopt sha256 files) db.ledger }

    abbrev known : List String
    known = names (map (adopt sha256 files) db.ledger)

    apply_sorted_refused :
        (run : List ℕ → S → Option S)
        → any (edited sha256 files) db.ledger ≡ true
        → apply_sorted sha256 run files db ≡ stopped sha256 run true db
    unfolding apply_sorted
    apply_sorted_refused run bad = rw (bad, apply_sorted) refl

    apply_sorted_checked :
        (run : List ℕ → S → Option S)
        → any (edited sha256 files) db.ledger ≡ false
        → apply_sorted sha256 run files db ≡ apply_each sha256 run known files started
    unfolding apply_sorted verify_checksums
    apply_sorted_checked run good = rw (good, apply_sorted) refl

  apply_sorted_again :
      (run : List ℕ → S → Option S) (files : List File) (db : Database S)
      → All (IsFine sha256 files) db.ledger
      → apply_sorted sha256 run files db ≡ apply_each sha256 run (names db.ledger) files db
  unfolding apply_sorted
  apply_sorted_again run files db fine =
      rw (verify_fine sha256 files db.ledger fine, apply_sorted) refl

  pub apply_sorted-resume :
      (files : List File) (db : Database S)
      → AreNamed files
      → let r = apply_sorted sha256 run₁ files db in
        let later = apply_sorted sha256 run₂ files r.db in
        let whole = apply_sorted sha256 run₂ files db in
        (later.db ≡ whole.db)
        × (r.applied ++ later.applied ≡ whole.applied)
        × (later.raised ≡ whole.raised)
  apply_sorted-resume files db named = elim (Bool-cases (any (edited sha256 files) db.ledger)) [
    | inl bad ↦
        rw (apply_sorted_refused files db run₁ bad)
          (rw (apply_sorted_refused files db run₂ bad) (refl, refl, refl))
    | inr good ↦
        let A = known files db in
        let r = apply_each sha256 run₁ A files (started files db) in
        let fine =
          All-apply_each sha256 run₁ (IsFine sha256 files) A files (started files db)
            (All-map _ _ files (λ f. entry-IsFine sha256 files f) (lookup_named files named))
            (All-adopt sha256 files db.ledger good) in
        rw (apply_sorted_checked files db run₁ good) (
          rw (apply_sorted_checked files db run₂ good) (
            rw (apply_sorted_again run₂ files r.db fine) (
              apply_each-Resumes A files (started files db) (names r.db.ledger) named (
                All-all _ files (λ f.
                  rw (names-apply_each sha256 run₁ A files (started files db))
                    (any-append (λ j. j == f.name) A r.applied))))))
  ]

  -- A run that stopped at a migration the database refused, and a later run in which it refuses
  -- nothing that went through before, come together to what the later run alone would have made:
  -- the same schema and table, and the same files in the same order, each applied once. So does a
  -- run that refused an edited file, and a second run after one that went through: it finds no file
  -- edited and applies nothing twice. No two files have one name.
  pub apply_migrations-resume :
      (glob : List File) (db : Database S)
      → AreNamed glob
      → let r = apply_migrations sha256 run₁ glob db in
        let later = apply_migrations sha256 run₂ glob r.db in
        let whole = apply_migrations sha256 run₂ glob db in
        (later.db ≡ whole.db)
        × (r.applied ++ later.applied ≡ whole.applied)
        × (later.raised ≡ whole.raised)
  unfolding apply_migrations
  apply_migrations-resume glob db named =
      apply_sorted-resume (sorted _ glob) db (AreNamed-sorted _ glob named)
