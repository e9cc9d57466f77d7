-- ===== src/Ops/Converge/City.antt =====
-- One city's steps are a chain: none runs after one that did not.
use crime_prevention_and_per.Prelude.{
  if◌then◌else◌, Bool-cases, Option-cases, String, ◌≡◌, refl, sym, subst, ◌∙◌, inl, inr, Bool, true,
  false, Option, none, some, List, [], ◌∷◌, ◌++◌, append_assoc, append-nil, arith,
}
use crime_prevention_and_per.Ops.Plan.{Task, Step}
use crime_prevention_and_per.Ops.Ledger.{Block}
use crime_prevention_and_per.Ops.Converge.{CityResult, untouched, is_nil, tasks, converge_city}

-- The stopping step, skipped or failed, and then what is blocked by it.
abbrev pub Halted : Option Block → Task → CityResult → Type 0
Halted none task r = (r.skipped ≡ []) × (r.failed ≡ task ∷ [])
Halted (some why) task r = (r.skipped ≡ (task, why) ∷ []) × (r.failed ≡ [])

module _ (block : Step → Option Block) (runs : Step → Bool) where
  unfoldable pub succeeds : Step → Bool
  succeeds x = elim (block x) [ none ↦ runs x | some _ ↦ false ]

  -- The steps before the first that is held back or fails, and the others.
  abbrev pub before_stop : List Step → List Step
  before_stop [] = []
  before_stop (x ∷ steps) = let rest = before_stop steps in if succeeds x then x ∷ rest else []

  abbrev pub from_stop : List Step → List Step
  from_stop [] = []
  from_stop (x ∷ steps) = let rest = from_stop steps in if succeeds x then rest else x ∷ steps

  abbrev pub Stopped : List Step → CityResult → Type 0
  Stopped [] r = (r.skipped ≡ []) × (r.failed ≡ []) × (r.blocked ≡ [])
  Stopped (x ∷ steps) r = (r.blocked ≡ tasks steps) × Halted (block x) x.task r

  after_failure :
      (steps : List Step) (r : CityResult)
      → is_nil r.failed ≡ false
      → converge_city block runs steps r ≡ record r { blocked = r.blocked ++ tasks steps }
  unfolding converge_city
  after_failure [] r h = ground (arith, append-nil r.blocked)
  after_failure (x ∷ steps) r h =
      let next = record r { blocked = r.blocked ++ x.task ∷ [] } in
      ground (arith, after_failure steps next h, append_assoc r.blocked (x.task ∷ []) (tasks steps))

  -- While all has gone well, only `done` is filled.
  abbrev so_far : String → List Task → CityResult
  so_far city done = record (untouched city) { done = done }

  step_held :
      (x : Step) (steps : List Step) (city : String) (done : List Task) (why : Block)
      → block x ≡ some why
      → converge_city block runs (x ∷ steps) (so_far city done)
        ≡ record (so_far city done) { skipped = (x.task, why) ∷ []; blocked = tasks steps }
  unfolding converge_city
  step_held x steps city done why p = ground arith

  step_ran :
      (x : Step) (steps : List Step) (city : String) (done : List Task)
      → block x ≡ none
      → runs x ≡ true
      → converge_city block runs (x ∷ steps) (so_far city done)
        ≡ converge_city block runs steps (so_far city (done ++ x.task ∷ []))
  unfolding converge_city
  step_ran x steps city done p ok = ground arith

  step_failed :
      (x : Step) (steps : List Step) (city : String) (done : List Task)
      → block x ≡ none
      → runs x ≡ false
      → converge_city block runs (x ∷ steps) (so_far city done)
        ≡ record (so_far city done) { failed = x.task ∷ []; blocked = tasks steps }
  unfolding converge_city
  step_failed x steps city done p bad =
      let r = record (so_far city done) { failed = x.task ∷ [] } in
      ground (arith, after_failure steps r refl)

  -- Where the loop stands when it stops at `x`.
  halting_at :
      (x : Step) (steps : List Step) (city : String) (done : List Task) (r : CityResult)
      → converge_city block runs (x ∷ steps) (so_far city done) ≡ r
      → succeeds x ≡ false
      → r.done ≡ done
      → r.blocked ≡ tasks steps
      → Halted (block x) x.task r
      → let r' = converge_city block runs (x ∷ steps) (so_far city done) in
        (r'.done ≡ done ++ tasks (before_stop (x ∷ steps))) × Stopped (from_stop (x ∷ steps)) r'
  halting_at x steps city done r e s d b h = rw s (
      subst (λ q. (q.done ≡ done ++ []) × Stopped (x ∷ steps) q) (sym e)
        (d ∙ sym (append-nil done), (b, h)))

  city_loop :
      (steps : List Step) (city : String) (done : List Task)
      → let r = converge_city block runs steps (so_far city done) in
        (r.done ≡ done ++ tasks (before_stop steps)) × Stopped (from_stop steps) r
  unfolding succeeds
  city_loop [] city done = unfold converge_city in (sym (append-nil done), (refl, refl, refl))
  city_loop (x ∷ steps) city done = elim (Option-cases (block x)) [
    | inr (why, p) ↦
        let r = record (so_far city done) { skipped = (x.task, why) ∷ []; blocked = tasks steps } in
        halting_at x steps city done r (step_held x steps city done why p) (ground arith) refl refl
          (subst (λ o. Halted o x.task r) (sym p) (refl, refl))
    | inl p ↦ elim (Bool-cases (runs x)) [
      | inl ok ↦
          let (a, b) = city_loop steps city (done ++ x.task ∷ []) in
          let s : succeeds x ≡ true = ground arith in
          let next = converge_city block runs steps (so_far city (done ++ x.task ∷ [])) in
          rw s (
            subst
              (λ q.
                (q.done ≡ done ++ x.task ∷ tasks (before_stop steps)) × Stopped (from_stop steps) q)
              (sym (step_ran x steps city done p ok))
              (a ∙ append_assoc done (x.task ∷ []) (tasks (before_stop steps)), b))
      | inr bad ↦
          let r = record (so_far city done) { failed = x.task ∷ []; blocked = tasks steps } in
          halting_at x steps city done r (step_failed x steps city done p bad) (ground arith) refl
            refl (subst (λ o. Halted o x.task r) (sym p) (refl, refl))
    ]
  ]

  -- A city's steps run in order up to the first that is held back or fails. Those before it are
  -- done, it alone is skipped, with the reason, or failed, and all after it are blocked; if there
  -- is none, every step is done and nothing else is reported.
  pub converge_city_lem :
      (steps : List Step) (city : String)
      → let r = converge_city block runs steps (untouched city) in
        (r.done ≡ tasks (before_stop steps)) × Stopped (from_stop steps) r
  converge_city_lem steps city = city_loop steps city []
