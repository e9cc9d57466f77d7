-- ===== src/Migrate/Schema/Loop.antt =====
-- safety/migrate.py, the loop of `apply_migrations`, case by case.
use crime_prevention_and_per.Prelude.{
  Bool-cases, Option-cases, All, All-append, map-append_one, String_eq, elem, ℕ, String, ◌≡◌, refl,
  sym, ap, ◌∙◌, inl, inr, true, false, Option, none, some, List, [], ◌∷◌, ◌++◌, append_assoc,
  append-nil, arith,
}
use crime_prevention_and_per.Migrate.Schema.{
  File, names, Database, MigrationRun, migration_checksum, stopped, recorded, listing, apply_each,
}

module _ (sha256 : List ℕ → String) {S : Type 0} (run : List ℕ → S → Option S) where
  pub apply_each_skip :
      (A : List String) (f : File) (files : List File) (db : Database S)
      → elem f.name A ≡ true
      → apply_each sha256 run A (f ∷ files) db ≡ apply_each sha256 run A files db
  unfolding apply_each
  apply_each_skip A f files db known = rw known refl

  pub apply_each_stop :
      (A : List String) (f : File) (files : List File) (db : Database S)
      → elem f.name A ≡ false
      → run f.bytes db.schema ≡ none
      → apply_each sha256 run A (f ∷ files) db ≡ stopped sha256 run true db
  unfolding apply_each
  apply_each_stop A f files db new stuck = ground arith

  pub apply_each_go :
      (A : List String) (f : File) (files : List File) (db : Database S) (s : S)
      → elem f.name A ≡ false
      → run f.bytes db.schema ≡ some s
      → apply_each sha256 run A (f ∷ files) db
        ≡ listing sha256 run f.name (apply_each sha256 run A files (recorded sha256 run f s db))
  unfolding apply_each
  apply_each_go A f files db s new went = ground arith

  -- To prove a property of the loop's result, prove it in the loop's three cases.
  pub apply_each_ind :
      (A : List String) (P : List File → Database S → MigrationRun S → Type 0)
      → ((db : Database S) → P [] db (stopped sha256 run false db))
      → ((f : File) (files : List File) (db : Database S) (r : MigrationRun S)
          → elem f.name A ≡ true
          → P files db r
          → P (f ∷ files) db r)
      → ((f : File) (files : List File) (db : Database S)
          → elem f.name A ≡ false
          → run f.bytes db.schema ≡ none
          → P (f ∷ files) db (stopped sha256 run true db))
      → ((f : File) (files : List File) (db : Database S) (s : S) (r : MigrationRun S)
          → elem f.name A ≡ false
          → run f.bytes db.schema ≡ some s
          → P files (recorded sha256 run f s db) r
          → P (f ∷ files) db (listing sha256 run f.name r))
      → (files : List File) (db : Database S) → P files db (apply_each sha256 run A files db)
  unfolding apply_each
  apply_each_ind A P nil skip stop go [] db = nil db
  apply_each_ind A P nil skip stop go (f ∷ files) db = elim (Bool-cases (elem f.name A)) [
    | inl known ↦
        rw (apply_each_skip A f files db known)
          (skip f files db _ known (apply_each_ind A P nil skip stop go files db))
    | inr new ↦ elim (Option-cases (run f.bytes db.schema)) [
      | inl stuck ↦ rw (apply_each_stop A f files db new stuck) (stop f files db new stuck)
      | inr (s, went) ↦ rw (apply_each_go A f files db s new went) (
          go f files db s _ new went
            (apply_each_ind A P nil skip stop go files (recorded sha256 run f s db)))
    ]
  ]

  pub names-apply_each :
      (A : List String) (files : List File) (db : Database S)
      → let r = apply_each sha256 run A files db in names r.db.ledger ≡ names db.ledger ++ r.applied
  names-apply_each A =
      apply_each_ind A (λ files db r. names r.db.ledger ≡ names db.ledger ++ r.applied)
        (λ db. sym (append-nil _)) (λ f files db r known ih. ih)
        (λ f files db new stuck. sym (append-nil _))
        (λ f files db s r new went ih.
          ih
          ∙ rw (map-append_one (λ x. x.0) db.ledger (f.name, some (migration_checksum sha256 f)))
              (append_assoc (names db.ledger) (f.name ∷ []) r.applied))

  pub All-apply_each :
      (P : String × Option String → Type 0) (A : List String) (files : List File) (db : Database S)
      → All (λ f. P (f.name, some (migration_checksum sha256 f))) files
      → All P db.ledger
      → All P (apply_each sha256 run A files db).db.ledger
  All-apply_each P A =
      apply_each_ind A
        (λ files db r.
          All (λ f. P (f.name, some (migration_checksum sha256 f))) files
          → All P db.ledger
          → All P r.db.ledger)
        (λ db h k. k) (λ f files db r known ih h k. ih h.1 k) (λ f files db new stuck h k. k)
        (λ f files db s r new went ih h k. ih h.1 (All-append P db.ledger _ k (h.0, tt)))

  -- The loop looks at `already` only at the files' names.
  pub apply_each_same :
      (A B : List String) (files : List File) (db : Database S)
      → All (λ f. elem f.name B ≡ elem f.name A) files
      → apply_each sha256 run B files db ≡ apply_each sha256 run A files db
  unfolding apply_each
  apply_each_same A B files db same =
      apply_each_ind A
        (λ files db r.
          All (λ f. elem f.name B ≡ elem f.name A) files → apply_each sha256 run B files db ≡ r)
        (λ db h. refl)
        (λ f files db r known ih h. apply_each_skip B f files db (h.0 ∙ known) ∙ ih h.1)
        (λ f files db new stuck h. apply_each_stop B f files db (h.0 ∙ new) stuck)
        (λ f files db s r new went ih h.
          apply_each_go B f files db s (h.0 ∙ new) went ∙ ap (listing sha256 run f.name) (ih h.1))
        files db same
