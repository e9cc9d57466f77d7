-- ===== src/Etl/Withdrawn.antt =====
-- safety/etl/withdrawn.py: records that a re-pull of the revision window no longer returns. Dates
-- are day numbers, times seconds since the epoch. A table is the list of its rows, and a statement
-- is what it selects, deletes and inserts; `stratum` is the SQL expression that names a row's
-- stratum, evaluated by PostgreSQL. `absent > 0.10 * prior` is written on whole numbers. What a
-- reason says beyond its numbers, logging, and the samples in an issue's detail are left out.
pub mod Apply
pub mod Archive
pub mod Counts
pub mod Deletion
pub mod Guard
use crime_prevention_and_per.Prelude.{
  ltb, leb, nat_eq, if◌then◌else◌, length, keep, sum_by, String_eq, ◌==◌, elem, ℕ, ◌+◌, ◌-◌, ◌*◌,
  ◌/◌, min, String, Bool, false, ◌&&◌, ◌||◌, Option, none, some, List, [], ◌∷◌, ◌++◌, map,
}
use crime_prevention_and_per.Prelude.Sorting.{text_le, sorted}
use crime_prevention_and_per.OrderedDict.Counting.{count_of, add_one}
use crime_prevention_and_per.OrderedDict.{Dict}

pub data Mode : Type 0 where
  off report delete : Mode

-- `resolve_mode`, of the setting after `strip` and `lower`
unfoldable pub resolve_mode : Option String → Mode
resolve_mode none = report
resolve_mode (some mode) =
    if mode == "off" then off else if mode == "delete" then delete else report

pub data Basis : Type 0 where
  occurred reported : Basis

-- A row of silver.incident, as far as it is read here.
pub record Row : Type 0 where
  pub source_id : String
  pub dataset : String
  pub incident_key : String
  pub occurred_day : ℕ
  pub reported_day : Option ℕ

-- `_BASIS_SQL`; a NULL is between no bounds
unfoldable pub basis_day : Basis → Row → Option ℕ
basis_day occurred r = some r.occurred_day
basis_day reported r = r.reported_day

abbrev pub day_s : ℕ
day_s = 86_400

-- `reconcile_window`, from the first day to the last
unfoldable pub reconcile_window : ℕ → ℕ → ℕ → Option (ℕ × ℕ)
reconcile_window since until now =
    let lo = since / day_s + 1 in
    let end = min until now / day_s in if ltb end (lo + 1) then none else some (lo, end - 1)

pub record Stratum : Type 0 where
  pub name : String
  pub prior : ℕ
  pub absent : ℕ

-- Why a deletion is skipped.
pub data Reason : Type 0 where
  partial_pull : ℕ → ℕ → Reason
  partial_stratum : Stratum → Reason
  empty_stratum : Stratum → Reason

pub data Decision : Type 0 where
  nothing : Decision
  remove_all : Decision
  skip : Reason → Decision

abbrev pub partial_of : Stratum → Bool
partial_of s = leb 50 s.prior && ltb s.prior (10 * s.absent)

abbrev pub emptied : Stratum → Bool
emptied s = leb 3 s.prior && nat_eq s.absent s.prior

-- the first stratum that a loop returns at
unfoldable pub first : (Stratum → Bool) → List Stratum → Option Stratum
first p [] = none
first p (s ∷ strata) = let rest = first p strata in if p s then some s else rest

unfoldable pub decide : List Stratum → Decision
unfolding first
decide strata =
    let prior = sum_by (λ s. s.prior) strata in
    let absent = sum_by (λ s. s.absent) strata in
    if nat_eq prior 0 || nat_eq absent 0
    then nothing
    else if ltb prior (10 * absent)
    then skip (partial_pull prior absent)
    else elim (first partial_of strata) [
      | some s ↦ skip (partial_stratum s)
      | none ↦ elim (first emptied strata) [ some s ↦ skip (empty_stratum s) | none ↦ remove_all ]
    ]

pub record Assessment : Type 0 where
  pub source_id : String
  pub dataset : String
  pub basis : Basis
  pub lo : ℕ
  pub hi : ℕ
  pub prior : ℕ
  pub absent_keys : List String
  pub strata : List Stratum
  pub decision : Decision

-- the rows of the source's dataset with their basis day in the window
unfoldable pub in_scope : String → String → Basis → ℕ → ℕ → Row → Bool
unfolding basis_day
in_scope source_id dataset basis lo hi r =
    r.source_id == source_id
    && r.dataset == dataset
    && elim (basis_day basis r) [ none ↦ false | some day ↦ leb lo day && leb day hi ]

-- The loop's variables: `prior`, `gone` and `absent_keys`.
pub record Count : Type 0 where
  pub prior : Dict String ℕ
  pub gone : Dict String ℕ
  pub absent_keys : List String

-- `[Stratum(name, n, gone.get(name, 0)) for name, n in sorted(prior.items())]`
abbrev pub strata_of : Count → List Stratum
strata_of c =
    map (λ x. record { name = x.0; prior = x.1; absent = count_of x.0 c.gone })
      (sorted (λ x y. text_le x.0 y.0) c.prior)

module _ (stratum : Row → String) where
  -- the loop of `assess` over the rows, for the keys that the pull has seen
  unfoldable pub tally : List String → List Row → Count → Count
  tally seen [] c = c
  tally seen (r ∷ rows) c = tally seen rows (
      if elem r.incident_key seen
      then record c { prior = add_one (stratum r) c.prior }
      else record {
        prior = add_one (stratum r) c.prior;
        gone = add_one (stratum r) c.gone;
        absent_keys = c.absent_keys ++ r.incident_key ∷ [];
      })

  -- `assess`; `seen` are the keys that staging builds for the pull's records
  unfoldable pub assess :
      List Row → Option Basis → String → String → List String → ℕ → ℕ → ℕ → Option Assessment
  unfolding reconcile_window tally decide in_scope
  assess silver none source_id dataset seen since until now = none
  assess silver (some basis) source_id dataset seen since until now =
      elim (reconcile_window since until now) [
        | none ↦ none
        | some (lo, hi) ↦
            let rows = keep (in_scope source_id dataset basis lo hi) silver in
            let counted = tally seen rows (record { prior = []; gone = []; absent_keys = [] }) in
            some (record {
              source_id = source_id;
              dataset = dataset;
              basis = basis;
              lo = lo;
              hi = hi;
              prior = length rows;
              absent_keys = sorted text_le counted.absent_keys;
              strata = strata_of counted;
              decision = decide (strata_of counted);
            })
      ]
