-- ===== src/Ops/Converge/Exit.antt =====
-- The exit code, which the scheduler reads.
use crime_prevention_and_per.Prelude.{
  if◌then◌else◌, Bool-cases, keep, any, String, ◌≡◌, refl, ap, inl, inr, Bool, true, false, not,
  ◌&&◌, ◌||◌, Option, none, some, List, [], ◌∷◌, map, arith,
}
use crime_prevention_and_per.Ops.Plan.{Step}
use crime_prevention_and_per.Ops.Ledger.{Block}
use crime_prevention_and_per.Ops.Converge.{
  CityResult, untouched, is_nil, converge_city, held, converge_all, some_failed, chosen,
  has_unknown, converge,
}
use crime_prevention_and_per.Ops.Converge.City.{Halted, from_stop, Stopped, converge_city_lem}

module _ (block : Step → Option Block) (runs : Step → Bool) (plan : String → List Step) where
  -- The first step that does not succeed, if there is one, was tried.
  abbrev pub tried : List Step → Bool
  tried [] = false
  tried (x ∷ _) = elim (block x) [ none ↦ true | some _ ↦ false ]

  -- A step of the city's plan fails.
  abbrev pub fails : String → Bool
  fails city = tried (from_stop block runs (plan city))

  halting_failed :
      (steps : List Step) (r : CityResult)
      → Stopped block runs steps r
      → not (is_nil r.failed) ≡ tried steps
  halting_failed [] r h = rw h.1 refl
  halting_failed (x ∷ steps) r h = halted (block x) h.1
    where
      halted :
          (o : Option Block)
          → Halted o x.task r
          → not (is_nil r.failed) ≡ elim o [ none ↦ true | some _ ↦ false ]
      halted none k = rw k.1 refl
      halted (some why) k = rw k.1 refl

  city_failed :
      (city : String)
      → not (is_nil (converge_city block runs (plan city) (untouched city)).failed) ≡ fails city
  city_failed city =
      halting_failed (from_stop block runs (plan city))
        (converge_city block runs (plan city) (untouched city))
        (converge_city_lem block runs (plan city) city).1

  no_plan : (city : String) → is_nil (plan city) ≡ true → fails city ≡ false
  no_plan city h = empty_plan (plan city) h
    where
      empty_plan :
          (steps : List Step) → is_nil steps ≡ true → tried (from_stop block runs steps) ≡ false
      empty_plan [] e = refl
      empty_plan (x ∷ steps) e = absurd (cc)

  pub some_failed-converge_all :
      (cities : List String) → some_failed (converge_all block runs plan cities) ≡ any fails cities
  unfolding converge_all
  some_failed-converge_all [] = refl
  some_failed-converge_all (city ∷ cities) = elim (Bool-cases (is_nil (plan city))) [
    | inl none_due ↦
        let none_fails = no_plan city none_due in
        let rest = some_failed-converge_all cities in ground arith
    | inr due ↦ ground (arith, city_failed city, some_failed-converge_all cities)
  ]

  pub converge_all-all :
      (cities : List String)
      → converge_all block runs plan cities
        ≡ map
            (λ city. converge_city block runs (plan city) (untouched city))
            (keep (λ city. not (is_nil (plan city))) cities)
  unfolding converge_all
  converge_all-all [] = refl
  converge_all-all (city ∷ cities) =
      let rest = converge_all-all cities in
      elim (Bool-cases (is_nil (plan city))) [
        | inl none_due ↦ rw none_due rest
        | inr due ↦
            rw due (ap (λ rs. converge_city block runs (plan city) (untouched city) ∷ rs) rest)
      ]

-- The exit code is 1 exactly if the schema is not there, a city is named that is not enabled, or,
-- in a run that is no dry run, a step of some city's plan was tried and failed; a step that is held
-- back is no failure. Where the schema is there, each named city is enabled and the run is no dry
-- run, the plan of every chosen city that has one is run from its start, whatever happened to the
-- cities before it; else none is.
pub converge-exit :
    (ready : Bool) (enabled : List String) (cities : Option (List String)) (force dry_run : Bool)
    (block : Step → Option Block) (runs : Step → Bool) (plan : String → List Step)
    → ((converge ready enabled cities force dry_run block runs plan).0 ≡ (
        if not ready
          || has_unknown cities enabled
          || (not dry_run && any (fails (held force block) runs plan) (chosen cities enabled))
        then 1
        else 0))
      × ((converge ready enabled cities force dry_run block runs plan).1 ≡ (
          if ready && not (has_unknown cities enabled) && not dry_run
          then map
              (λ city. converge_city (held force block) runs (plan city) (untouched city))
              (keep (λ city. not (is_nil (plan city))) (chosen cities enabled))
          else []))
unfolding converge
converge-exit ready enabled cities force dry_run block runs plan = (
  ground (arith, some_failed-converge_all (held force block) runs plan (chosen cities enabled)),
  ground (arith, converge_all-all (held force block) runs plan (chosen cities enabled)),
)
