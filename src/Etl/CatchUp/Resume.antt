-- ===== src/Etl/CatchUp/Resume.antt =====
-- safety/etl/run.py, `cmd_history`: what is left after some slices were loaded.
use crime_prevention_and_per.Prelude.{
  ltb, if◌then◌else◌, Bool-cases, Option-cases, length, drop, keep, ℕ, zero, suc, String, ◌≡◌, refl,
  sym, ap, ◌∙◌, inl, inr, Bool, true, false, ◌&&◌, Option, none, some, List, [], ◌∷◌, ◌++◌,
  append-nil, arith, eq_iff,
}
use crime_prevention_and_per.Etl.Windows.{Date}
use crime_prevention_and_per.Etl.History.{Instant, midnight, is_before, slice_since, history_slices}
use crime_prevention_and_per.Etl.Schedule.{PullStatus, is_completed}
use crime_prevention_and_per.Etl.History.Slices.{Walks}
use crime_prevention_and_per.Etl.CatchUp.{
  HistoryPull, history_covered_from, Archive, primary_floor, Slice, of_dataset, months_of,
  older_remaining, history_remaining, SliceOutcome, status_of, recorded, load_slices,
}
use crime_prevention_and_per.Etl.CatchUp.Covered.{covered_same, covered_further}

abbrev grown :
    Bool → Instant × Instant → Option (List (Instant × Instant)) → Option (List (Instant × Instant))
grown ahead s o =
    if ahead then elim o [ none ↦ none | some slices ↦ some (s ∷ slices) ] else some []

grown_parts :
    (ahead : Bool) (s t : Instant × Instant) (o : Option (List (Instant × Instant)))
    (rest : List (Instant × Instant))
    → grown ahead s o ≡ some (t ∷ rest)
    → (s ≡ t) × (o ≡ some rest)
grown_parts false s t o rest h = absurd (cc)
grown_parts true s t none rest h = absurd (cc)
grown_parts true s t (some slices) rest h = (cc, cc)

grown_more :
    (ahead : Bool) (s : Instant × Instant) (o more : Option (List (Instant × Instant)))
    (xs : List (Instant × Instant))
    → ((rest : List (Instant × Instant)) → o ≡ some rest → more ≡ some rest)
    → grown ahead s o ≡ some xs
    → grown ahead s more ≡ some xs
grown_more false s o more xs k h = h
grown_more true s none more xs k h = absurd (cc)
grown_more true s (some slices) more xs k h = rw (k slices refl) h

module _ (floor : Date) (n : ℕ) where
  more_fuel :
      (fuel : ℕ) (cursor : Instant) (xs : List (Instant × Instant))
      → history_slices fuel cursor floor n ≡ some xs
      → history_slices (suc fuel) cursor floor n ≡ some xs
  unfolding history_slices
  more_fuel zero cursor xs h = absurd (cc)
  more_fuel (suc fuel) cursor xs h =
      grown_more (is_before (midnight floor) cursor) _ _ _ xs
        (more_fuel fuel (slice_since floor n cursor)) h

  -- The walk from where a slice begins is the rest of the walk.
  next_slices :
      (fuel : ℕ) (cursor since until : Instant) (rest : List (Instant × Instant))
      → history_slices fuel cursor floor n ≡ some ((since, until) ∷ rest)
      → history_slices fuel since floor n ≡ some rest
  unfolding history_slices
  next_slices zero cursor since until rest h = absurd (cc)
  next_slices (suc fuel) cursor since until rest h =
      let parts = grown_parts (is_before (midnight floor) cursor) _ _ _ rest h in
      let e : slice_since floor n cursor ≡ since = ap (λ s. s.0) parts.0 in
      more_fuel fuel since rest (rw (sym e) parts.1)

-- A city that has no older dataset.
abbrev pub one_dataset : String → String → Date → Option Date → Archive
one_dataset source_id dataset start primary_start = record {
  source_id = source_id;
  incident_dataset = dataset;
  history_start_date = some start;
  older = [];
  primary_start = primary_start;
}

abbrev pub completed_of : List SliceOutcome → ℕ
completed_of outcomes = length (keep (λ o. is_completed o.status) outcomes)

module _ (source_id dataset : String) (start : Date) (primary_start : Option Date)
    (slice_months fuel : ℕ) (ingest : Slice → Option PullStatus) where
  abbrev city : Archive
  city = one_dataset source_id dataset start primary_start

  abbrev floor : Date
  floor = primary_floor start primary_start

  abbrev each : ℕ
  each = months_of source_id slice_months

  abbrev covered : List HistoryPull → Option Instant
  covered pulls = history_covered_from source_id none [] pulls

  pub remaining_lem :
      (pulls : List HistoryPull) (cursor : Instant) (xs : List (Instant × Instant))
      → covered pulls ≡ some cursor
      → history_slices fuel cursor floor each ≡ some xs
      → history_remaining fuel city slice_months pulls ≡ some (of_dataset dataset xs)
  unfolding history_remaining older_remaining
  remaining_lem pulls cursor xs at walk = rw (at, walk) (ap some (append-nil _))

  -- the rows once a slice was pulled
  abbrev after : Slice → List HistoryPull → List HistoryPull
  after s pulls = pulls ++ recorded source_id ingest s ∷ []

  covered_still :
      (s : Slice) (pulls : List HistoryPull)
      → is_completed (status_of (ingest s)) ≡ false
      → covered (after s pulls) ≡ covered pulls
  covered_still s pulls h =
      covered_same source_id none [] (recorded source_id ingest s) pulls (ground arith)

  covered_to :
      (s : Slice) (pulls : List HistoryPull) (cursor : Instant)
      → covered pulls ≡ some cursor
      → is_completed (status_of (ingest s)) ≡ true
      → is_before s.since cursor ≡ true
      → covered (after s pulls) ≡ some s.since
  covered_to s pulls cursor at h earlier =
      covered_further source_id none [] (recorded source_id ingest s) pulls s.since
        (ground (arith, eq_iff source_id source_id)) refl (rw at earlier)

  abbrev Resumes :
      (ℕ → Bool)
      → ℕ
      → List (Instant × Instant)
      → List (Instant × Instant)
      → List HistoryPull
      → Type 0
  Resumes late k ys zs pulls =
      let r = load_slices source_id ingest late k (of_dataset dataset ys) pulls in
      history_remaining fuel city slice_months r.pulls
      ≡ some (of_dataset dataset (drop (completed_of r.outcomes) (ys ++ zs)))

  pub load_slices-Resumes :
      (late : ℕ → Bool) (k : ℕ) (ys zs : List (Instant × Instant)) (cursor : Instant)
      (pulls : List HistoryPull)
      → covered pulls ≡ some cursor
      → history_slices fuel cursor floor each ≡ some (ys ++ zs)
      → Walks floor each cursor (ys ++ zs)
      → Resumes late k ys zs pulls
  unfolding load_slices
  load_slices-Resumes late k [] zs cursor pulls at walk lies = remaining_lem pulls cursor zs at walk
  load_slices-Resumes late k ((since, until) ∷ ys) zs cursor pulls at walk lies =
      let s : Slice = record { dataset = dataset; since = since; until = until } in
      elim (Bool-cases (ltb 0 k && late k)) [
        | inl over ↦ rw over (remaining_lem pulls cursor _ at walk)
        | inr on_time ↦ elim (Option-cases (ingest s)) [
          | inl raising ↦
              rw (on_time, raising)
                (remaining_lem (after s pulls) cursor _
                  (covered_still s pulls (rw raising refl) ∙ at) walk)
          | inr (status, went) ↦ elim (Bool-cases (is_completed status)) [
            | inl done ↦
                rw (on_time, went, done)
                  (rw done (
                    load_slices-Resumes late (suc k) ys zs since (after s pulls)
                      (covered_to s pulls cursor at (rw went done) lies.1.0)
                      (next_slices floor each fuel cursor since until (ys ++ zs) walk) lies.2))
            | inr not_done ↦
                rw (on_time, went, not_done)
                  (rw not_done (
                    remaining_lem (after s pulls) cursor _
                      (covered_still s pulls (rw went not_done) ∙ at) walk))
          ]
        ]
      ]
