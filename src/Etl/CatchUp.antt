-- ===== src/Etl/CatchUp.antt =====
-- safety/etl/run.py, `history_remaining` and `cmd_history`: what of a city's history is left to
-- load, and a run that loads some of it. A row of etl.pull_run is what `_COVERED_FROM_SQL` reads of
-- it, and a pull of a slice is the status that it ends with, or none if it raises. The walks back
-- go for `fuel` slices each at most.
pub mod Covered
pub mod Resume
pub mod Finish
use crime_prevention_and_per.Prelude.{
  ltb, leb, if◌then◌else◌, take, all, String_eq, ◌==◌, elem, ℕ, zero, suc, String, Bool, true,
  false, not, ◌&&◌, Option, none, some, List, [], ◌∷◌, ◌++◌, map,
}
use crime_prevention_and_per.Etl.Windows.{Date, ordinal}
use crime_prevention_and_per.Etl.Schedule.{
  Mode, backfill, incremental, history, PullStatus, failed, is_completed,
}
use crime_prevention_and_per.Etl.History.{Instant, midnight, day_before, is_before, history_slices}

-- a row of etl.pull_run
pub record HistoryPull : Type 0 where
  pub source_id : String
  pub mode : Mode
  pub status : PullStatus
  pub window_start : Option Instant
  pub dataset : String

abbrev pub names_dataset : Option String → String → Bool
names_dataset none name = true
names_dataset (some dataset) name = name == dataset

-- the WHERE of `_COVERED_FROM_SQL`
abbrev pub is_load : String → Option String → List String → HistoryPull → Bool
is_load source_id dataset exclude p =
    p.source_id == source_id
    && elim p.mode [ backfill ↦ true | incremental ↦ true | history ↦ true | _ ↦ false ]
    && is_completed p.status
    && names_dataset dataset p.dataset
    && not (elem p.dataset exclude)

-- `min`, where a null does not count
abbrev pub earliest_of : Option Instant → Option Instant → Option Instant
earliest_of none rest = rest
earliest_of (some t) none = some t
earliest_of (some t) (some u) = some (if is_before u t then u else t)

unfoldable pub history_covered_from :
    String → Option String → List String → List HistoryPull → Option Instant
unfolding is_before
history_covered_from source_id dataset exclude [] = none
history_covered_from source_id dataset exclude (p ∷ pulls) =
    let rest = history_covered_from source_id dataset exclude pulls in
    if is_load source_id dataset exclude p then earliest_of p.window_start rest else rest

-- an entry of HISTORY_DATASETS: a dataset, its first day, and the day after its last
pub record OlderDataset : Type 0 where
  pub name : String
  pub start : Date
  pub end : Date

-- What `SourceConfig` and the tables of the adapters say of a city's history; a date that
-- PRIMARY_HISTORY_START does not have is none.
pub record Archive : Type 0 where
  pub source_id : String
  pub incident_dataset : String
  pub history_start_date : Option Date
  pub older : List OlderDataset
  pub primary_start : Option Date

-- `max` of two dates
abbrev pub later_date : Date → Date → Date
later_date a b = if ltb (ordinal a) (ordinal b) then b else a

-- `max(floor, PRIMARY_HISTORY_START.get(...))`
abbrev pub primary_floor : Date → Option Date → Date
primary_floor floor none = floor
primary_floor floor (some d) = later_date floor d

pub record Slice : Type 0 where
  pub dataset : String
  pub since : Instant
  pub until : Instant

abbrev pub of_dataset : String → List (Instant × Instant) → List Slice
of_dataset dataset slices = map (λ s. record { dataset = dataset; since = s.0; until = s.1 }) slices

-- `slice_months or HISTORY_SLICE_MONTHS.get(...)`; 0 and a missing number are the same
unfoldable pub months_of : String → ℕ → ℕ
months_of source_id slice_months =
    if ltb 0 slice_months then slice_months else if source_id == "chi" then 3 else 6

-- the cursor of an older dataset: from its last day, if it was never read
abbrev pub cursor_of : OlderDataset → Option Instant → Instant
cursor_of d none = day_before (midnight d.end)
cursor_of d (some covered) = covered

abbrev pub both : Option (List Slice) → Option (List Slice) → Option (List Slice)
both none rest = none
both (some slices) none = none
both (some slices) (some rest) = some (slices ++ rest)

module _ (fuel : ℕ) where
  abbrev pub part_of : String → Option (List (Instant × Instant)) → Option (List Slice)
  part_of dataset none = none
  part_of dataset (some slices) = some (of_dataset dataset slices)

  -- the loop over the older datasets
  unfoldable pub older_remaining :
      String → Date → ℕ → List HistoryPull → List OlderDataset → Option (List Slice)
  unfolding history_slices history_covered_from
  older_remaining source_id floor n pulls [] = some []
  older_remaining source_id floor n pulls (d ∷ older) =
      let rest = older_remaining source_id floor n pulls older in
      let cursor = cursor_of d (history_covered_from source_id (some d.name) [] pulls) in
      if leb (ordinal d.end) (ordinal floor)
      then rest
      else both (part_of d.name (history_slices fuel cursor (later_date d.start floor) n)) rest

  abbrev pub remaining_from :
      Archive → Date → ℕ → List HistoryPull → Option Instant → Option (List Slice)
  remaining_from c floor n pulls none = some []
  remaining_from c floor n pulls (some covered) =
      both
        (part_of c.incident_dataset
          (history_slices fuel covered (primary_floor floor c.primary_start) n))
        (older_remaining c.source_id floor n pulls c.older)

  -- `history_remaining`
  unfoldable pub history_remaining : Archive → ℕ → List HistoryPull → Option (List Slice)
  unfolding older_remaining history_slices months_of history_covered_from
  history_remaining c slice_months pulls = elim c.history_start_date [
    | none ↦ some []
    | some floor ↦
        remaining_from c floor (months_of c.source_id slice_months) pulls
          (history_covered_from c.source_id none (map (λ d. d.name) c.older) pulls)
  ]

-- What became of a slice.
pub record SliceOutcome : Type 0 where
  pub slice : Slice
  pub status : PullStatus

-- the outcomes, the rows, and whether a pull raised
pub record LoadRun : Type 0 where
  pub outcomes : List SliceOutcome
  pub pulls : List HistoryPull
  pub raised : Bool

-- a pull that raises leaves its row failed
abbrev pub status_of : Option PullStatus → PullStatus
status_of none = failed
status_of (some status) = status

module _ (source_id : String) (ingest : Slice → Option PullStatus) where
  -- `_ingest` of a slice, as far as its row of etl.pull_run goes
  abbrev pub recorded : Slice → HistoryPull
  recorded s = record {
    source_id = source_id;
    mode = history;
    status = status_of (ingest s);
    window_start = some s.since;
    dataset = s.dataset;
  }

  -- the loop of `cmd_history`; `late` says whether the deadline has passed after so many slices
  unfoldable pub load_slices : (ℕ → Bool) → ℕ → List Slice → List HistoryPull → LoadRun
  load_slices late n [] pulls = record { outcomes = []; pulls = pulls; raised = false }
  load_slices late n (s ∷ slices) pulls =
      let after = pulls ++ recorded s ∷ [] in
      let rest = load_slices late (suc n) slices after in
      if ltb 0 n && late n
      then record { outcomes = []; pulls = pulls; raised = false }
      else elim (ingest s) [
        | none ↦ record { outcomes = []; pulls = after; raised = true }
        | some status ↦
            let outcome : SliceOutcome = record { slice = s; status = status } in
            if is_completed status
            then record rest { outcomes = outcome ∷ rest.outcomes }
            else record { outcomes = outcome ∷ []; pulls = after; raised = false }
      ]

-- How `cmd_history` ends: refused, aborted by a pull that raised, or with its outcomes, the slices
-- left, and whether gold is refreshed.
pub data HistoryEnd : Type 0 where
  refused aborted : HistoryEnd
  ran : List SliceOutcome → List Slice → Bool → HistoryEnd

-- `remaining[: args.max_slices or None]`
abbrev pub first_slices : ℕ → List Slice → List Slice
first_slices zero slices = slices
first_slices (suc n) slices = take (suc n) slices

abbrev pub exit_code : HistoryEnd → Option ℕ
exit_code refused = some 1
exit_code aborted = none
exit_code (ran outcomes left refreshes) =
    if all (λ o. is_completed o.status) outcomes then some 0 else some 1

abbrev pub is_empty : {A : Type 0} → List A → Bool
is_empty [] = true
is_empty (_ ∷ _) = false

module _ (fuel : ℕ) (c : Archive) (ingest : Slice → Option PullStatus) where
  -- the end of `cmd_history`, once the slices to load are known
  unfoldable pub run_history :
      ℕ
      → ℕ
      → (ℕ → Bool)
      → Bool
      → List HistoryPull
      → List Slice
      → Option (HistoryEnd × List HistoryPull)
  run_history slice_months max_slices late no_gold pulls remaining =
      let r = load_slices c.source_id ingest late 0 (first_slices max_slices remaining) pulls in
      let finished : Option (HistoryEnd × List HistoryPull) =
        elim (history_remaining fuel c slice_months r.pulls) [
          | none ↦ none
          | some left ↦ some (
            ran r.outcomes left (is_empty left && not (is_empty r.outcomes) && not no_gold),
            r.pulls,
          )
        ] in
      if r.raised then some (aborted, r.pulls) else finished

  -- `cmd_history`, for an enabled city; `allowed` is `config.history_enabled or args.force`
  unfoldable pub cmd_history :
      Bool → ℕ → ℕ → (ℕ → Bool) → Bool → List HistoryPull → Option (HistoryEnd × List HistoryPull)
  cmd_history allowed slice_months max_slices late no_gold pulls =
      let go : Option (HistoryEnd × List HistoryPull) =
        elim (history_remaining fuel c slice_months pulls) [
          | none ↦ none
          | some remaining ↦ run_history slice_months max_slices late no_gold pulls remaining
        ] in
      if not allowed
      then some (refused, pulls)
      else elim (history_covered_from c.source_id none [] pulls) [
        | none ↦ some (refused, pulls)
        | some _ ↦ go
      ]
