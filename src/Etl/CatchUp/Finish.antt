-- ===== src/Etl/CatchUp/Finish.antt =====
-- safety/etl/run.py, `cmd_history`: a run, and what it leaves for the next one.
use crime_prevention_and_per.Prelude.{
  if◌then◌else◌, take, drop, ℕ, zero, suc, ◌+◌, ◌*◌, ◌≤◌, String, ◌≡◌, refl, sym, ap, subst, ◌∙◌,
  Bool, true, false, not, ◌&&◌, Option, none, some, List, [], ◌∷◌, ◌++◌, map, append-nil, arith,
}
use crime_prevention_and_per.Etl.Windows.{Date, ordinal}
use crime_prevention_and_per.Etl.Schedule.{PullStatus}
use crime_prevention_and_per.Etl.History.{Instant, history_slices}
use crime_prevention_and_per.Etl.History.Slices.{Walks, Loads, history_slices_lem}
use crime_prevention_and_per.Etl.CatchUp.{
  HistoryPull, history_covered_from, Archive, primary_floor, Slice, of_dataset, months_of,
  history_remaining, LoadRun, load_slices, HistoryEnd, aborted, ran, first_slices, is_empty,
  run_history, cmd_history,
}
use crime_prevention_and_per.Etl.CatchUp.Resume.{
  one_dataset, completed_of, remaining_lem, load_slices-Resumes,
}
use crime_prevention_and_per.Etl.History.Days.{IsDay}

take-drop {ℓ} : {A : Type ℓ} (n : ℕ) (xs : List A) → take n xs ++ drop n xs ≡ xs
take-drop zero xs = refl
take-drop (suc n) [] = refl
take-drop (suc n) (x ∷ xs) = ap (λ ys. x ∷ ys) (take-drop n xs)

take-map {ℓ κ} :
    {A : Type ℓ} {B : Type κ} (f : A → B) (n : ℕ) (xs : List A)
    → take n (map f xs) ≡ map f (take n xs)
take-map f zero xs = refl
take-map f (suc n) [] = refl
take-map f (suc n) (x ∷ xs) = ap (λ ys. f x ∷ ys) (take-map f n xs)

drop-map {ℓ κ} :
    {A : Type ℓ} {B : Type κ} (f : A → B) (n : ℕ) (xs : List A)
    → drop n (map f xs) ≡ map f (drop n xs)
drop-map f zero xs = refl
drop-map f (suc n) [] = refl
drop-map f (suc n) (x ∷ xs) = drop-map f n xs

-- the slices that a run takes are the first of those that are left
first_split :
    (dataset : String) (max_slices : ℕ) (xs : List (Instant × Instant))
    → (ys : List (Instant × Instant)) × (zs : List (Instant × Instant)) × (first_slices max_slices
          (of_dataset dataset xs)
        ≡ of_dataset dataset ys)
      × (xs ≡ ys ++ zs)
first_split dataset zero xs = (xs, [], refl, sym (append-nil xs))
first_split dataset (suc n) xs =
    (take (suc n) xs, drop (suc n) xs, take-map _ (suc n) xs, sym (take-drop (suc n) xs))

-- How a run ends that had the slices `xs` to load and made `r` of them.
abbrev pub end_of : Bool → List Slice → LoadRun → HistoryEnd
end_of no_gold xs r =
    let left = drop (completed_of r.outcomes) xs in
    if r.raised
    then aborted
    else ran r.outcomes left (is_empty left && not (is_empty r.outcomes) && not no_gold)

either_end :
    (raised : Bool) (a b : HistoryEnd) (pulls : List HistoryPull)
    → if◌then◌else◌ {A = Option (HistoryEnd × List HistoryPull)} raised
        (some (a, pulls))
        (some (b, pulls))
      ≡ some (if◌then◌else◌ {A = HistoryEnd} raised a b, pulls)
either_end true a b pulls = refl
either_end false a b pulls = refl

module _ (source_id dataset : String) (start : Date) (primary_start : Option Date)
    (slice_months fuel : ℕ) (ingest : Slice → Option PullStatus) where
  abbrev pub history_city : Archive
  history_city = one_dataset source_id dataset start primary_start

  abbrev loads : (ℕ → Bool) → ℕ → List Slice → List HistoryPull → LoadRun
  loads late max_slices xs pulls =
      load_slices source_id ingest late 0 (first_slices max_slices xs) pulls

  loads_lem :
      (late : ℕ → Bool) (max_slices : ℕ) (cursor : Instant) (pulls : List HistoryPull)
      (xs : List (Instant × Instant))
      → history_covered_from source_id none [] pulls ≡ some cursor
      → history_slices fuel cursor
          (primary_floor start primary_start)
          (months_of source_id slice_months)
        ≡ some xs
      → Walks (primary_floor start primary_start) (months_of source_id slice_months) cursor xs
      → let r = loads late max_slices (of_dataset dataset xs) pulls in
        history_remaining fuel history_city slice_months r.pulls
        ≡ some (drop (completed_of r.outcomes) (of_dataset dataset xs))
  loads_lem late max_slices cursor pulls xs at walk lies =
      let (ys, zs, first, split) = first_split dataset max_slices xs in
      let r = load_slices source_id ingest late 0 (of_dataset dataset ys) pulls in
      rw first (
        load_slices-Resumes source_id dataset start primary_start slice_months fuel ingest late 0 ys
          zs cursor pulls at (walk ∙ ap some split) (subst (Walks _ _ cursor) split lies)
        ∙ ap some (
            ap (λ l. of_dataset dataset (drop (completed_of r.outcomes) l)) (sym split)
            ∙ sym (drop-map _ (completed_of r.outcomes) xs)))

  loaded :
      (floor : Date) (n : ℕ) (cursor : Instant) (o : Option (List (Instant × Instant)))
      → Loads floor n cursor o
      → (xs : List (Instant × Instant)) × (o ≡ some xs) × Walks floor n cursor xs
  loaded start_date n cursor none h = absurd h
  loaded start_date n cursor (some xs) h = (xs, refl, h)

  months_of-positive : 1 ≤ months_of source_id slice_months
  unfolding months_of
  months_of-positive = ground arith

  -- What a run makes of the slices `xs` that are left: it ends, and leaves those after the ones it
  -- completed.
  abbrev pub Finishes : (ℕ → Bool) → ℕ → Bool → List HistoryPull → List Slice → Type 0
  Finishes late max_slices no_gold pulls xs =
      let r = load_slices source_id ingest late 0 (first_slices max_slices xs) pulls in
      (history_remaining fuel history_city slice_months pulls ≡ some xs)
      × (cmd_history fuel history_city ingest true slice_months max_slices late no_gold pulls
          ≡ some (end_of no_gold xs r, r.pulls))
      × (history_remaining fuel history_city slice_months r.pulls
          ≡ some (drop (completed_of r.outcomes) xs))

  -- A run of a city that has been loaded before, and has one dataset, ends; unless a pull raised, it
  -- says what is left: the slices that were left before, less those that it completed, which are the
  -- newest. None is loaded twice and none is passed over, however the run was cut short, and what is
  -- left is what the next run finds to do. Dates are from the year 1 on, the oldest is late enough to
  -- go back from, and the walk is given two rounds more than there are days to it.
  pub cmd_history_lem :
      (late : ℕ → Bool) (max_slices : ℕ) (no_gold : Bool) (cursor : Instant)
      (pulls : List HistoryPull)
      → IsDay (primary_floor start primary_start)
      → IsDay cursor.date
      → 31 * (months_of source_id slice_months + 2) ≤ ordinal (primary_floor start primary_start)
      → ordinal cursor.date + 2 ≤ ordinal (primary_floor start primary_start) + fuel
      → 1 ≤ fuel
      → history_covered_from source_id none [] pulls ≡ some cursor
      → (xs : List Slice) × Finishes late max_slices no_gold pulls xs
  unfolding cmd_history run_history
  cmd_history_lem late max_slices no_gold cursor pulls vf vc room enough some_fuel at =
      let walk =
        history_slices_lem (primary_floor start primary_start) (months_of source_id slice_months) vf
          months_of-positive room fuel cursor vc enough some_fuel in
      let (xs, walked, lies) = loaded _ _ cursor _ walk in
      let l = of_dataset dataset xs in
      let left =
        remaining_lem source_id dataset start primary_start slice_months fuel ingest pulls cursor xs
          at walked in
      let next = loads_lem late max_slices cursor pulls xs at walked lies in
      (l, (left, rw at (rw left (rw next (either_end _ _ _ _))), next))
