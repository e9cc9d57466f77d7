-- ===== src/Ops/Plan/Needs.antt =====
-- When a plan is empty, and how often it builds the time-of-day layers.
use crime_prevention_and_per.Prelude.{
  if◌then◌else◌, sum_by, sum_by-append, String_eq, ◌==◌, elem, ℕ, ◌+◌, ◌/◌, ◌≤◌, String, ◌≡◌, refl,
  ◌↔◌, Bool, true, false, ◌||◌, Option, none, some, List, [], ◌∷◌, ◌++◌, arith, eq_iff,
}
use crime_prevention_and_per.Ops.Plan.{
  State, is_some, gold_reason, history_reason, dow_built, needs_backfill, needs_hourly, needs_gold,
  fold_hourly, into_gold?, into_backfill?, skip_hourly, backfill_steps, census_steps, gold_steps,
  hourly_steps, history_steps, plan_from_state,
}
use crime_prevention_and_per.Ops.Plan.Order.{builds_hourly}

-- Gold was built by this version, no earlier than the last pull; and there is one.
abbrev pub GoldIsCurrent : String → Option ℕ → Option ℕ → Option String → Type 0
GoldIsCurrent version (some pulled) (some refreshed) (some built_by) =
    (built_by ≡ version) × (pulled ≤ refreshed)
GoldIsCurrent version _ _ _ = ⊥

-- The time-of-day layers and the weekday factor are there, or no record has an hour.
abbrev pub HourlyIsBuilt : Bool → Bool → Bool → Type 0
HourlyIsBuilt true dow clock = dow ≡ true
HourlyIsBuilt false dow clock = clock ≡ false

-- History is off here, or reaches back to its start, or there is nothing to extend.
abbrev pub HistoryIsLoaded : Bool → Option ℕ → Option ℕ → Type 0
HistoryIsLoaded true (some start) (some covered) = covered / 86_400 ≤ start
HistoryIsLoaded _ _ _ = Unit

abbrev pub IsUpToDate : String → State → Type 0
IsUpToDate version s =
    (s.has_census ≡ true)
    × GoldIsCurrent version s.last_incident_pull_at s.gold_refreshed_at s.gold_pipeline_version
    × HourlyIsBuilt s.has_hourly (dow_built s) s.has_clock_hours
    × HistoryIsLoaded s.history_enabled s.history_start_date s.covered_from

append_nil_left {ℓ} : {A : Type ℓ} (xs ys : List A) → xs ++ ys ≡ [] → (xs ≡ []) × (ys ≡ [])
append_nil_left [] ys p = (refl, p)
append_nil_left (x ∷ xs) ys p = absurd (cc)

append_nils {ℓ} : {A : Type ℓ} (xs ys : List A) → xs ≡ [] → ys ≡ [] → xs ++ ys ≡ []
append_nils xs ys p q = rw (p, q) refl

gold_reason_lem :
    (version : String) (s : State) (p r : Option ℕ) (w : Option String)
    → s.last_incident_pull_at ≡ p
    → s.gold_refreshed_at ≡ r
    → s.gold_pipeline_version ≡ w
    → (is_some p ≡ true)
    → (gold_reason version s false ≡ none) ↔ GoldIsCurrent version p r w
unfolding gold_reason
gold_reason_lem version s none r w a b c h = absurd (cc)
gold_reason_lem version s (some p) none w a b c h = (λ e. absurd (ground arith), λ e. absurd e)
gold_reason_lem version s (some p) (some r) none a b c h =
    (λ e. absurd (ground arith), λ e. absurd e)
gold_reason_lem version s (some p) (some r) (some w) a b c h = (
  λ e. ((let t = eq_iff w version in ground arith), (let t = eq_iff w version in ground arith)),
  λ e. (let t = eq_iff w version in ground arith),
)

history_reason_lem :
    (s : State) (enabled : Bool) (start covered : Option ℕ)
    → s.history_enabled ≡ enabled
    → s.history_start_date ≡ start
    → s.covered_from ≡ covered
    → (history_reason s ≡ none) ↔ HistoryIsLoaded enabled start covered
unfolding history_reason
history_reason_lem s false start covered a b c = (λ e. tt, λ e. ground arith)
history_reason_lem s true none covered a b c = (λ e. tt, λ e. ground arith)
history_reason_lem s true (some d) none a b c = (λ e. tt, λ e. ground arith)
history_reason_lem s true (some d) (some x) a b c = (λ e. ground arith, λ e. ground arith)

needs_hourly_lem :
    (s : State) (there : Bool)
    → needs_backfill s ≡ false
    → s.has_hourly ≡ there
    → (needs_hourly s ≡ false) ↔ HourlyIsBuilt there (dow_built s) s.has_clock_hours
unfolding needs_hourly
needs_hourly_lem s true b h = (λ e. ground arith, λ e. ground arith)
needs_hourly_lem s false b h = (λ e. ground arith, λ e. ground arith)

module _ (version minutes : String) (s : State) (city : String) where
  no_backfill : (backfill_steps version minutes s city ≡ []) ↔ (needs_backfill s ≡ false)
  unfolding backfill_steps
  no_backfill = (λ e. ground arith, λ e. ground arith)

  no_census : (census_steps version minutes s city ≡ []) ↔ (s.has_census ≡ true)
  unfolding census_steps
  no_census = (λ e. ground arith, λ e. ground arith)

  no_gold :
      needs_backfill s ≡ false
      → s.has_census ≡ true
      → (gold_steps version minutes s city ≡ []) ↔ (gold_reason version s false ≡ none)
  unfolding gold_steps needs_gold
  no_gold b c = (λ e. ground arith, λ e. ground arith)

  no_hourly :
      needs_backfill s ≡ false
      → s.has_census ≡ true
      → gold_reason version s false ≡ none
      → (hourly_steps version minutes s city ≡ []) ↔ (needs_hourly s ≡ false)
  unfolding hourly_steps fold_hourly needs_gold
  no_hourly b c g = (λ e. ground arith, λ e. ground arith)

  no_history :
      needs_backfill s ≡ false
      → (history_steps version minutes s city ≡ []) ↔ (history_reason s ≡ none)
  unfolding history_steps
  no_history b = (λ e. ground arith, λ e. ground arith)

  pulled : needs_backfill s ≡ false → is_some s.last_incident_pull_at ≡ true
  unfolding needs_backfill
  pulled b = ground arith

  pull_on_record :
      (p r : Option ℕ) (w : Option String)
      → s.last_incident_pull_at ≡ p
      → GoldIsCurrent version p r w
      → needs_backfill s ≡ false
  unfolding needs_backfill
  pull_on_record none r w q h = absurd h
  pull_on_record (some p) r w q h = ground arith

  nothing_to_do : plan_from_state version minutes s city ≡ [] → IsUpToDate version s
  unfolding plan_from_state
  nothing_to_do e =
      let (e0, r0) = append_nil_left (backfill_steps version minutes s city) _ e in
      let (e1, r1) = append_nil_left (census_steps version minutes s city) _ r0 in
      let (e2, r2) = append_nil_left (gold_steps version minutes s city) _ r1 in
      let (e3, e4) = append_nil_left (hourly_steps version minutes s city) _ r2 in
      let b = no_backfill.0 e0 in
      let c = no_census.0 e1 in
      let g = (no_gold b c).0 e2 in
      (
        c,
        (gold_reason_lem version s s.last_incident_pull_at s.gold_refreshed_at
              s.gold_pipeline_version refl refl refl (pulled b)).0
            g,
        (needs_hourly_lem s s.has_hourly b refl).0 ((no_hourly b c g).0 e3),
        (history_reason_lem s s.history_enabled s.history_start_date s.covered_from refl refl
              refl).0
            ((no_history b).0 e4),
      )

  all_done : IsUpToDate version s → plan_from_state version minutes s city ≡ []
  unfolding plan_from_state
  all_done (c, current, built, loaded) =
      let b =
        pull_on_record s.last_incident_pull_at s.gold_refreshed_at s.gold_pipeline_version refl
          current in
      let g =
        (gold_reason_lem version s s.last_incident_pull_at s.gold_refreshed_at
            s.gold_pipeline_version refl refl refl (pulled b)).1
          current in
      let h =
        (history_reason_lem s s.history_enabled s.history_start_date s.covered_from refl refl
            refl).1
          loaded in
      append_nils _ _ (no_backfill.1 b) (
        append_nils _ _ (no_census.1 c) (
          append_nils _ _ ((no_gold b c).1 g) (
            append_nils _ _ ((no_hourly b c g).1 ((needs_hourly_lem s s.has_hourly b refl).1 built))
              ((no_history b).1 h))))

  -- A city has nothing to do exactly if it is up to date: incidents were pulled and census blocks
  -- loaded, this version built gold no earlier than the last pull, the time-of-day layers and the
  -- weekday factor are there or cannot be built, and history, if it is on, reaches its start.
  pub plan_from_state-nil : (plan_from_state version minutes s city ≡ []) ↔ IsUpToDate version s
  plan_from_state-nil = (nothing_to_do, all_done)

  flag_seen : (xs : List String) → elem skip_hourly (xs ++ skip_hourly ∷ []) ≡ true
  flag_seen [] = refl
  flag_seen (x ∷ xs) = ground (arith, flag_seen xs)

  backfill_builds :
      (city == skip_hourly) ≡ false
      → sum_by builds_hourly (backfill_steps version minutes s city)
        ≡ (if into_backfill? (fold_hourly version s) then 1 else 0)
  unfolding backfill_steps fold_hourly
  backfill_builds other = ground arith

  census_builds : sum_by builds_hourly (census_steps version minutes s city) ≡ 0
  unfolding census_steps
  census_builds = ground arith

  gold_builds :
      (city == skip_hourly) ≡ false
      → sum_by builds_hourly (gold_steps version minutes s city)
        ≡ (if into_gold? (fold_hourly version s) then 1 else 0)
  unfolding gold_steps fold_hourly
  gold_builds other = ground arith

  hourly_builds : sum_by builds_hourly (hourly_steps version minutes s city) ≡ (
      if into_gold? (fold_hourly version s) || into_backfill? (fold_hourly version s)
      then 0
      else if needs_hourly s
      then 1
      else 0)
  unfolding hourly_steps
  hourly_builds = ground arith

  history_builds : sum_by builds_hourly (history_steps version minutes s city) ≡ 0
  unfolding history_steps
  history_builds = ground arith

  folded_once :
      (if into_backfill? (fold_hourly version s) then 1 else 0)
        + ((if into_gold? (fold_hourly version s) then 1 else 0)
            + (if into_gold? (fold_hourly version s) || into_backfill? (fold_hourly version s)
                then 0
                else if needs_hourly s
                then 1
                else 0))
      ≡ (if needs_hourly s then 1 else 0)
  unfolding fold_hourly
  folded_once = ground arith

  early_build :
      (if into_backfill? (fold_hourly version s) then 1 else 0) ≤ (if s.has_census then 1 else 0)
  unfolding fold_hourly
  early_build = ground arith

  -- A plan builds the time-of-day layers exactly once if they are needed, in a step of their own or
  -- in a gold refresh or backfill that runs anyway, and never otherwise; and never in a backfill
  -- that comes before the census blocks are loaded. No city is named like the flag.
  pub plan_from_state-builds :
      (city == skip_hourly) ≡ false
      → (sum_by builds_hourly (plan_from_state version minutes s city)
          ≡ (if needs_hourly s then 1 else 0))
        × (sum_by builds_hourly (backfill_steps version minutes s city)
            ≤ (if s.has_census then 1 else 0))
  unfolding plan_from_state
  plan_from_state-builds other =
      let h = hourly_steps version minutes s city in
      let l = history_steps version minutes s city in
      let g = gold_steps version minutes s city in
      let c = census_steps version minutes s city in
      let b = backfill_steps version minutes s city in
      (
        omega (
          arith,
          sum_by-append builds_hourly b (c ++ (g ++ (h ++ l))),
          sum_by-append builds_hourly c (g ++ (h ++ l)),
          sum_by-append builds_hourly g (h ++ l),
          sum_by-append builds_hourly h l,
          backfill_builds other,
          census_builds,
          gold_builds other,
          hourly_builds,
          history_builds,
          folded_once,
        ),
        omega (arith, backfill_builds other, early_build),
      )
