-- ===== src/Etl/Schedule/Due.antt =====
-- safety/etl/run.py, `enabled_sources`: who is pulled, said without the latest look.
use crime_prevention_and_per.Prelude.{
  leb, Option-cases, keep, any, all, any-map, any-keep, any_same, String_eq, ◌==◌, elem, ℕ, ◌+◌,
  String, ◌≡◌, refl, ◌∙◌, inl, inr, Bool, true, false, not, ◌&&◌, ◌||◌, Option, none, some, List,
  [], ◌∷◌, arith,
}
use crime_prevention_and_per.Prelude.Int.{◌-ℤ◌}
use crime_prevention_and_per.Etl.Schedule.{
  threshold, is_due, Pull, is_look, last_checked_at, Source, stalest, source_due, enabled_sources,
}
use crime_prevention_and_per.Prelude.Sorting.{sorted, any-sorted}

-- Every completed look at the source is at least a wait ago.
abbrev pub has_waited : ℕ → List Pull → String → ℕ → Bool
has_waited now pulls source_id wait =
    all (λ p. not (is_look source_id p) || leb (p.started_at + wait) now) pulls

abbrev pub may_publish : ℕ → List Pull → Source → Bool
may_publish now pulls r = elim (threshold r.expected_cadence) [
  | none ↦ true
  | some wait ↦ has_waited now pulls r.source_id wait
]

abbrev waits : ℕ → ℕ → Option ℕ → Bool
waits now wait none = true
waits now wait (some t) = leb (t + wait) now

waits-last_checked_at :
    (now wait : ℕ) (source_id : String) (pulls : List Pull)
    → waits now wait (last_checked_at source_id pulls) ≡ has_waited now pulls source_id wait
unfolding last_checked_at
waits-last_checked_at now wait source_id [] = refl
waits-last_checked_at now wait source_id (p ∷ pulls) =
    ground (arith, waits-last_checked_at now wait source_id pulls)

source_due_lem :
    (now : ℕ) (pulls : List Pull) (r : Source) → source_due now pulls r ≡ may_publish now pulls r
unfolding is_due ◌-ℤ◌
source_due_lem now pulls r = elim (Option-cases (threshold r.expected_cadence)) [
  | inl unknown ↦ ground arith
  | inr (wait, known) ↦ ground (arith, waits-last_checked_at now wait r.source_id pulls)
]

-- A source is pulled exactly if the registry has it enabled and, where only due sources are asked
-- for, its cadence is unknown or each of its completed incident pulls, of which there may be none,
-- is at least the cadence's wait ago. Pulls that failed, were blocked or still run, and pulls of
-- other kinds, hold nothing back.
pub enabled_sources_lem :
    (now : ℕ) (pulls : List Pull) (registry : List Source) (due_only : Bool) (city : String)
    → elem city (enabled_sources now pulls registry due_only)
      ≡ any
          (λ r. r.source_id == city && (not due_only || may_publish now pulls r) && r.enabled)
          registry
unfolding enabled_sources
enabled_sources_lem now pulls registry true city =
    let named : Source → Bool = λ r. r.source_id == city in
    let rows = sorted (stalest pulls) (keep (λ r. r.enabled) registry) in
    any-map (λ j. j == city) (λ r. r.source_id) (keep (source_due now pulls) rows)
    ∙ (any-keep named (source_due now pulls) rows
        ∙ (any-sorted (stalest pulls) (λ r. named r && source_due now pulls r)
              (keep (λ r. r.enabled) registry)
            ∙ (any-keep (λ r. named r && source_due now pulls r) (λ r. r.enabled) registry
                ∙ any_same _ _ registry (λ r. rw (source_due_lem now pulls r) refl))))
enabled_sources_lem now pulls registry false city =
    let named : Source → Bool = λ r. r.source_id == city in
    let rows = sorted (stalest pulls) (keep (λ r. r.enabled) registry) in
    any-map (λ j. j == city) (λ r. r.source_id) rows
    ∙ (any-sorted (stalest pulls) named (keep (λ r. r.enabled) registry)
        ∙ (any-keep named (λ r. r.enabled) registry ∙ any_same _ _ registry (λ r. ground arith)))
