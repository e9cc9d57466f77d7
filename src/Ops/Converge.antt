-- ===== src/Ops/Converge.antt =====
-- safety/ops.py, `converge`: run each city's plan, as far as its steps succeed.
-- `runs` says whether run_step of a step succeeds, `block` what _cooldown_block said of it when the
-- city's turn began, `plan` the city's plan from the state that was read at the start. What is
-- printed is left out.

pub mod City
pub mod Exit
use crime_prevention_and_per.Prelude.{
  if◌then◌else◌, any, String_eq, elem, ℕ, String, Bool, true, false, not, ◌||◌, Option, none, some,
  List, [], ◌∷◌, ◌++◌, map,
}
use crime_prevention_and_per.Ops.Plan.{Task, Step}
use crime_prevention_and_per.Ops.Ledger.{Block}

pub record CityResult : Type 0 where
  pub city : String
  pub done : List Task
  pub skipped : List (Task × Block)
  pub failed : List Task
  pub blocked : List Task

abbrev pub untouched : String → CityResult
untouched city = record { city = city; done = []; skipped = []; failed = []; blocked = [] }

abbrev pub is_nil {ℓ} : {A : Type ℓ} → List A → Bool
is_nil [] = true
is_nil (_ ∷ _) = false

abbrev pub tasks : List Step → List Task
tasks steps = map (λ x. x.task) steps

module _ (block : Step → Option Block) (runs : Step → Bool) where
  abbrev pub ran : Step → CityResult → CityResult
  ran x r =
      if runs x
      then record r { done = r.done ++ x.task ∷ [] }
      else record r { failed = r.failed ++ x.task ∷ [] }

  -- the loop over a city's steps
  unfoldable pub converge_city : List Step → CityResult → CityResult
  converge_city [] r = r
  converge_city (x ∷ steps) r =
      let abandoned = converge_city steps (record r { blocked = r.blocked ++ x.task ∷ [] }) in
      let went_on = converge_city steps (ran x r) in
      if not (is_nil r.failed) then abandoned else elim (block x) [
        | some why ↦ record r {
          skipped = r.skipped ++ (x.task, why) ∷ [];
          blocked = r.blocked ++ tasks steps;
        }
        | none ↦ went_on
      ]

-- `blocks`: nothing is held back under `force`
abbrev pub held : Bool → (Step → Option Block) → Step → Option Block
held true block x = none
held false block x = block x

module _ (block : Step → Option Block) (runs : Step → Bool) (plan : String → List Step) where
  -- the loop over the cities with a plan
  unfoldable pub converge_all : List String → List CityResult
  unfolding converge_city
  converge_all [] = []
  converge_all (city ∷ cities) =
      let rest = converge_all cities in
      if is_nil (plan city)
      then rest
      else converge_city block runs (plan city) (untouched city) ∷ rest

abbrev pub some_failed : List CityResult → Bool
some_failed rs = any (λ r. not (is_nil r.failed)) rs

abbrev pub chosen : Option (List String) → List String → List String
chosen none enabled = enabled
chosen (some cities) enabled = cities

abbrev pub has_unknown : Option (List String) → List String → Bool
has_unknown none enabled = false
has_unknown (some cities) enabled = any (λ city. not (elem city enabled)) cities

-- `converge`: the exit code, and the results of the cities that had a plan
unfoldable pub converge :
    Bool
    → List String
    → Option (List String)
    → Bool
    → Bool
    → (Step → Option Block)
    → (Step → Bool)
    → (String → List Step)
    → ℕ × List CityResult
unfolding converge_all
converge ready enabled cities force dry_run block runs plan =
    if not ready || has_unknown cities enabled
    then (1, [])
    else if dry_run
    then (0, [])
    else (let results = converge_all (held force block) runs plan (chosen cities enabled) in
        (if some_failed results then 1 else 0, results))
