-- ===== src/Etl/Promote/Once.antt =====
-- safety/etl/transform.py, `promote_to_silver`: an incident stands once in silver.
use crime_prevention_and_per.Prelude.{
  if◌then◌else◌, Bool-cases, Option-cases, All, All-all, All-zip, keep_same, All-mapped, All-unmap,
  String_eq, ℕ, String, ◌≡◌, refl, sym, subst, ◌∙◌, inl, inr, true, false, Option, none, some, List,
  [], ◌∷◌, map, arith,
}
use crime_prevention_and_per.Etl.Promote.{
  Staged, CrosswalkRow, Stored, crosswalk_of, same_key, upsert_all, stored_of, dedupe_across_years,
  Warehouse, of_pull, promote_to_silver,
}
use crime_prevention_and_per.Etl.Promote.Rows.{
  rows_of, HasKey, AreDistinct, same_key_sym, same_key_trans, rows_of-upsert_all, upserted,
}
use crime_prevention_and_per.Etl.Promote.Stale.{
  All-Stales, AreApart-map, rows_of-dedupe, rows_of-dedupe_other,
}

-- the staged record of an incident, if there is one
abbrev pub staged_for : Staged → List Staged → Option Staged
staged_for t [] = none
staged_for t (s ∷ staged) = if same_key s t then some s else staged_for t staged

at_staged :
    (P : Staged → Type 0) (t s : Staged) (staged : List Staged)
    → All P staged
    → staged_for t staged ≡ some s
    → P s × (same_key s t ≡ true)
at_staged P t s [] h found = absurd (cc)
at_staged P t s (r ∷ staged) h found = elim (Bool-cases (same_key r t)) [
  | inl here ↦
      let e : r ≡ s = ground arith in (subst P e h.0, subst (λ q. same_key q t ≡ true) e here)
  | inr there ↦ at_staged P t s staged h.1 (ground arith)
]

unstaged :
    (t : Staged) (staged : List Staged)
    → staged_for t staged ≡ none
    → All (λ s. same_key s t ≡ false) staged
unstaged t [] h = tt
unstaged t (s ∷ staged) h = (ground arith, unstaged t staged (ground arith))

module _ (text_key : String → String) (year_of : ℕ → ℕ) (crosswalk : List CrosswalkRow) where
  -- the row that a staged record becomes
  abbrev pub promoted : String → Staged → Stored
  promoted version s = stored_of year_of version (crosswalk_of text_key version crosswalk s) s

  staged_once :
      (version : String) (staged : List Staged) (silver : List Stored)
      → AreDistinct staged
      → HasKey silver
      → All
          (λ s.
            rows_of s (
              dedupe_across_years year_of staged
                (upsert_all (map (promoted version) staged) silver))
            ≡ promoted version s ∷ [])
          staged
  staged_once version staged silver distinct keyed =
      let rows = map (promoted version) staged in
      All-zip _ _ _ staged
        (λ s stales one.
          rows_of-dedupe year_of s (crosswalk_of text_key version crosswalk s) version staged
            (upsert_all rows silver) stales
          ∙ one)
        (All-Stales year_of staged distinct)
        (All-unmap _ (promoted version) staged (
          upserted rows silver (AreApart-map year_of (promoted version) staged (λ s. refl) distinct)
            (All-all _ rows keyed)))

  -- After a promotion silver holds an incident that was staged by one row, in the year of its new
  -- date and with the classification that applies to it, whatever rows it had in that year or
  -- another; and the rows of every other incident, of any source, are what they were. No incident
  -- is staged twice, and silver's primary key holds before.
  pub promote_to_silver-rows :
      (pull : ℕ) (source_id version : String) (db : Warehouse) (t : Staged)
      → AreDistinct (of_pull text_key year_of crosswalk pull db.staging)
      → HasKey db.silver
      → rows_of t (promote_to_silver text_key year_of crosswalk pull source_id version db).0.silver
        ≡ (elim (staged_for t (of_pull text_key year_of crosswalk pull db.staging)) [
          | none ↦ rows_of t db.silver
          | some s ↦ promoted version s ∷ []
        ])
  unfolding promote_to_silver
  promote_to_silver-rows pull source_id version db t distinct keyed =
      let staged = of_pull text_key year_of crosswalk pull db.staging in
      let rows = map (promoted version) staged in
      elim (Option-cases (staged_for t staged)) [
        | inl absent ↦
            let others = unstaged t staged absent in
            rw absent (
              rows_of-dedupe_other year_of t staged (upsert_all rows db.silver) others
              ∙ rows_of-upsert_all t rows db.silver (All-mapped _ (promoted version) staged others))
        | inr (s, found) ↦
            let here =
              at_staged _ t s staged (staged_once version staged db.silver distinct keyed) found in
            rw found (
              keep_same _ _ _ (λ i.
                same_key_sym i.incident t
                ∙ (sym (same_key_trans s t i.incident here.1) ∙ same_key_sym s i.incident))
              ∙ here.0)
      ]
