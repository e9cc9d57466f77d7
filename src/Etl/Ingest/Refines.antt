-- ===== src/Etl/Ingest/Refines.antt =====
-- safety/etl/run.py and safety/etl/transform.py: what a pull makes of silver, incident by incident.
use crime_prevention_and_per.Prelude.Texts.{joined, joined_same}
use crime_prevention_and_per.Prelude.{
  nat_eq, if◌then◌else◌, keep, All-map, All-mapped, String_eq, ◌==◌, ℕ, String, ◌≡◌, refl, sym, ap,
  subst, ◌∙◌, Bool, true, false, not, Option, none, some, List, [], ◌∷◌, ◌++◌, map, arith, eq_iff,
}
use crime_prevention_and_per.Etl.Validate.{Incident}
use crime_prevention_and_per.Etl.Validate.Ids.{HaveIds, accepted-HaveIds}
use crime_prevention_and_per.Etl.Promote.{
  Staged, CrosswalkRow, Stored, crosswalk_of, same_key, stored_of, Warehouse, promote_to_silver,
  stage_records,
}
use crime_prevention_and_per.Etl.Promote.Rows.{rows_of, HasKey, AreDistinct}
use crime_prevention_and_per.Etl.Ingest.{Db, Tables, Faults, Request, ingest}
use crime_prevention_and_per.Etl.Withdrawn.{Mode, Assessment}
use crime_prevention_and_per.Etl.Withdrawn.Apply.{Outcome}
use crime_prevention_and_per.Etl.Promote.Once.{staged_for, promote_to_silver-rows}
use crime_prevention_and_per.Etl.Ingest.Atomic.{result_of, is_promoted, ingest-silver}
use crime_prevention_and_per.Etl.Ingest.Settled.{conn_of}
use crime_prevention_and_per.Etl.Ingest.Warehouse.{
  Shelves, Columns, staged_row, tables_of, silver_of, tables_of-KeepsSilver,
}

-- What `stage_records` writes of a record: the pull and source it is given, and a key that differs
-- where the ids do.
record Stages (staged_of : ℕ → String → Incident → Staged) : Type 0 where
  in_pull :
      (pull : ℕ) (source_id : String) (r : Incident) → (staged_of pull source_id r).pull_id ≡ pull
  keyed :
      (pull : ℕ) (source_id : String) (r q : Incident)
      → same_key (staged_of pull source_id r) (staged_of pull source_id q)
        ≡ (r.source_incident_id == q.source_incident_id)

keep_other :
    (pull : ℕ) (rows : List Staged)
    → keep (λ s. nat_eq s.pull_id pull) (keep (λ s. not (nat_eq s.pull_id pull)) rows) ≡ []
keep_other pull [] = refl
keep_other pull (s ∷ rows) = ground (arith, keep_other pull rows)

keep-append {ℓ} :
    {A : Type ℓ} (p : A → Bool) (xs ys : List A) → keep p (xs ++ ys) ≡ keep p xs ++ keep p ys
keep-append p [] ys = refl
keep-append p (x ∷ xs) ys = ground (arith, keep-append p xs ys)

module _ (staged_of : ℕ → String → Incident → Staged) (stages : Stages staged_of) where
  keep_own :
      (pull : ℕ) (source_id : String) (rs : List Incident)
      → keep (λ s. nat_eq s.pull_id pull) (map (staged_of pull source_id) rs)
        ≡ map (staged_of pull source_id) rs
  keep_own pull source_id [] = refl
  keep_own pull source_id (r ∷ rs) =
      ground (arith, keep_own pull source_id rs, stages.in_pull pull source_id r)

  map-AreDistinct :
      (pull : ℕ) (source_id : String) (rs : List Incident)
      → HaveIds rs
      → AreDistinct (map (staged_of pull source_id) rs)
  map-AreDistinct pull source_id [] h = tt
  map-AreDistinct pull source_id (r ∷ rs) h = (
    All-mapped _ (staged_of pull source_id) rs
        (All-map _ _ rs (λ q p. stages.keyed pull source_id r q ∙ p) h.0),
    map-AreDistinct pull source_id rs h.1,
  )

  restaged :
      (pull : ℕ) (source_id : String) (rs : List Incident) (w : Warehouse)
      → keep
          (λ s. nat_eq s.pull_id pull)
          (stage_records pull (map (staged_of pull source_id) rs) w).staging
        ≡ map (staged_of pull source_id) rs
  unfolding stage_records
  restaged pull source_id rs w =
      keep-append (λ s. nat_eq s.pull_id pull) (keep (λ s. not (nat_eq s.pull_id pull)) w.staging) _
      ∙ rw (keep_other pull w.staging) (keep_own pull source_id rs)

staged_row-Stages : (columns_of : Incident → Columns) → Stages (staged_row columns_of)
staged_row-Stages columns_of = record {
  in_pull = λ pull source_id r. refl;
  keyed = λ pull source_id r q. ground (
    arith,
    eq_iff source_id source_id,
    joined_same source_id (joined ":" r.source_incident_id) (joined ":" q.source_incident_id),
    joined_same ":" r.source_incident_id q.source_incident_id,
  );
}

if_ap {ℓ κ} :
    {A : Type ℓ} {B : Type κ} (f : A → B) (b : Bool) (x y : A)
    → f (if b then x else y) ≡ (if b then f x else f y)
if_ap f true x y = refl
if_ap f false x y = refl

abbrev pub accepted_of : Request → Option (List Incident) → List Incident
accepted_of q none = []
accepted_of q (some records) = (result_of q records).accepted

accepted_of-HaveIds :
    (q : Request) (fetched : Option (List Incident)) → HaveIds (accepted_of q fetched)
accepted_of-HaveIds q none = tt
accepted_of-HaveIds q (some records) =
    accepted-HaveIds q.now q.bbox q.chunk_counts q.historical_median records

module _ (text_key : String → String) (year_of : ℕ → ℕ) (crosswalk : List CrosswalkRow)
    (columns_of : Incident → Columns) where
  abbrev staged_of : ℕ → String → Incident → Staged
  staged_of = staged_row columns_of

  -- silver's rows of an incident, once the accepted records stand in it
  abbrev pub rows_after : ℕ → String → String → Staged → List Incident → Warehouse → List Stored
  rows_after pull source_id version t records w =
      elim (staged_for t (map (staged_of pull source_id) records)) [
        | none ↦ rows_of t w.silver
        | some s ↦ stored_of year_of version (crosswalk_of text_key version crosswalk s) s ∷ []
      ]

  abbrev loaded : ℕ → String → List Incident → Warehouse → Warehouse
  loaded pull source_id records w = stage_records pull (map (staged_of pull source_id) records) w

  rows_after_lem :
      (pull : ℕ) (source_id version : String) (t : Staged) (records : List Incident) (w : Warehouse)
      → HaveIds records
      → HasKey w.silver
      → rows_of t
          (promote_to_silver text_key year_of crosswalk pull source_id version
            (loaded pull source_id records w)).0.silver
        ≡ rows_after pull source_id version t records w
  unfolding stage_records
  rows_after_lem pull source_id version t records w ids keyed =
      let e = restaged staged_of (staged_row-Stages columns_of) pull source_id records w in
      let distinct =
        subst AreDistinct (sym e)
          (map-AreDistinct staged_of (staged_row-Stages columns_of) pull source_id records ids) in
      promote_to_silver-rows text_key year_of crosswalk pull source_id version
        (loaded pull source_id records w) t distinct keyed
      ∙ rw e refl

  module _ (assess : List Incident → Shelves → Option Assessment)
      (apply : Assessment → Mode → Shelves → Outcome × Shelves) (occurred_at : String → ℕ) where
    abbrev pub tables : ℕ → String → String → Tables Shelves
    tables = tables_of text_key year_of crosswalk columns_of assess apply occurred_at

    -- A pull that does not reconcile promotes its accepted records exactly if records were fetched,
    -- the checks did not block them, and no statement up to the promotion failed. Then silver holds
    -- each accepted incident in one row, classified anew and in the year of its date, and every
    -- other incident as it was; if it does not promote, silver is what it was. Silver's primary key
    -- holds before.
    pub ingest-rows :
        (pull : ℕ) (source_id version : String) (faults : Faults Shelves) (q : Request)
        (fetched : Option (List Incident)) (db : Db Shelves) (t : Staged)
        → HasKey db.tables.warehouse.silver
        → rows_of t
            (conn_of (
              ingest
                (tables pull source_id version)
                faults
                false
                q
                fetched
                db)).committed.tables.warehouse.silver
          ≡ (if is_promoted faults q fetched
              then rows_after pull source_id version t (accepted_of q fetched) db.tables.warehouse
              else rows_of t db.tables.warehouse.silver)
    unfolding tables_of
    ingest-rows pull source_id version faults q none db t keyed = ap (rows_of t) (
        ingest-silver (tables pull source_id version)
          (silver_of text_key year_of crosswalk columns_of assess apply occurred_at)
          (tables_of-KeepsSilver text_key year_of crosswalk columns_of assess apply occurred_at pull
            source_id version)
          faults q none db)
    ingest-rows pull source_id version faults q (some records) db t keyed =
        ap (rows_of t) (
          ingest-silver (tables pull source_id version)
            (silver_of text_key year_of crosswalk columns_of assess apply occurred_at)
            (tables_of-KeepsSilver text_key year_of crosswalk columns_of assess apply occurred_at
              pull source_id version)
            faults q (some records) db)
        ∙ (if_ap (rows_of t) (is_promoted faults q (some records)) _ _
            ∙ ap
                (λ r.
                  if is_promoted faults q (some records)
                  then r
                  else rows_of t db.tables.warehouse.silver)
                (rows_after_lem pull source_id version t (result_of q records).accepted
                  db.tables.warehouse (accepted_of-HaveIds q (some records)) keyed))
