-- ===== src/Routing/Scoring.antt =====
-- safety/routing/scoring.py: the route with lower reported activity, and routes that are one route.
-- Python's floats are a parameter, with the operations that this code uses of them; a literal is
-- given in thousandths. A route that is not comparable has no mean ratio.
pub mod Offers
pub mod Distinct
use crime_prevention_and_per.Prelude.{
  if◌then◌else◌, any, all, String_eq, ◌==◌, ℕ, zero, suc, String, Bool, true, false, not, ◌&&◌,
  ◌||◌, Option, none, some, List, [], ◌∷◌, ◌++◌,
}

pub record Floats (F : Type 0) : Type 0 where
  pub lit : ℕ → F
  pub sub : F → F → F
  pub mul : F → F → F
  pub lt : F → F → Bool

-- `routes[i].duration_s`, and `activity[i]["mean_ratio"]`, which only a comparable route has
pub record Candidate (F : Type 0) : Type 0 where
  pub duration_s : F
  pub mean_ratio : Option F

pub data Why : Type 0 where
  single_route not_rated too_slow not_lower : Why

-- what `pick` answers: the index of the lower route, or why there is none
pub data Pick : Type 0 where
  lower : ℕ → Pick
  why : Why → Pick

module _ {F : Type 0} (f : Floats F) where
  abbrev pub le : F → F → Bool
  le a b = not (f.lt b a)

  -- Python's `min` and `max` keep the first of two equal values.
  abbrev pub min_of : F → F → F
  min_of a b = if f.lt b a then b else a

  abbrev pub max_of : F → F → F
  max_of a b = if f.lt a b then b else a

  -- `EXTRA_CAP_S.get(mode, EXTRA_MIN_S)`
  unfoldable pub extra_cap_s : String → F
  extra_cap_s mode =
      if mode == "walk"
      then f.lit 600_000
      else if mode == "bike" || mode == "drive"
      then f.lit 480_000
      else if mode == "transit"
      then f.lit 900_000
      else f.lit 180_000

  unfoldable pub extra_allowance_s : String → F → F
  unfolding extra_cap_s
  extra_allowance_s mode fastest_s =
      min_of (max_of (f.mul (f.lit 200) fastest_s) (f.lit 180_000)) (extra_cap_s mode)

  -- at least MIN_RELATIVE_DROP and MIN_ABSOLUTE_DROP below the fastest's mean
  abbrev pub drops : F → F → Bool
  drops fastest mean =
      le mean (f.mul fastest (f.sub (f.lit 1000) (f.lit 100)))
      && not (f.lt (f.sub fastest mean) (f.lit 100))

  abbrev pub is_near : F → F → Candidate F → Bool
  is_near fastest_s allowance c = le (f.sub c.duration_s fastest_s) allowance

  -- the earlier of two with equal means
  abbrev pub better : ℕ → F → Option (ℕ × F) → Option (ℕ × F)
  better i mean none = some (i, mean)
  better i mean (some (j, other)) = if f.lt other mean then some (j, other) else some (i, mean)

  -- only a route that is near and comparable counts
  abbrev pub consider : ℕ → Bool → Option F → Option (ℕ × F) → Option (ℕ × F)
  consider i near none rest = rest
  consider i true (some mean) rest = better i mean rest
  consider i false (some mean) rest = rest

  -- `min(within, key=...)` over the comparable routes from index `i` that are near
  unfoldable pub best_from : (Candidate F → Bool) → ℕ → List (Candidate F) → Option (ℕ × F)
  best_from near i [] = none
  best_from near i (c ∷ routes) = consider i (near c) c.mean_ratio (best_from near (suc i) routes)

  -- a comparable route that is clearly lower
  abbrev pub is_lower : F → Candidate F → Bool
  is_lower fastest c = elim c.mean_ratio [ none ↦ false | some mean ↦ drops fastest mean ]

  -- the rest of `pick`, from the best of the routes within the allowance
  unfoldable pub settle : F → List (Candidate F) → Option (ℕ × F) → Pick
  settle fastest others none = why too_slow
  settle fastest others (some (i, mean)) =
      if drops fastest mean
      then lower i
      else if any (is_lower fastest) others
      then why too_slow
      else why not_lower

  unfoldable pub pick_from : String → Candidate F → List (Candidate F) → Option F → Pick
  unfolding extra_allowance_s best_from settle
  pick_from mode first others none = why not_rated
  pick_from mode first others (some fastest) =
      let near = is_near first.duration_s (extra_allowance_s mode first.duration_s) in
      settle fastest others (best_from near 1 others)

  -- `pick`, of the fastest route and the others
  unfoldable pub pick : String → Candidate F → List (Candidate F) → Pick
  unfolding pick_from
  pick mode first [] = why single_route
  pick mode first (c ∷ others) = pick_from mode first (c ∷ others) first.mean_ratio

-- `distinct_routes`, of the test whether two routes overlap as one route does; the indexes kept
module _ (same : ℕ → ℕ → Bool) where
  unfoldable pub distinct_from : List ℕ → ℕ → ℕ → List ℕ
  distinct_from kept i zero = kept
  distinct_from kept i (suc left) =
      distinct_from (if all (λ j. not (same i j)) kept then kept ++ i ∷ [] else kept) (suc i) left

  unfoldable pub distinct_routes : ℕ → List ℕ
  unfolding distinct_from
  distinct_routes n = distinct_from [] 0 n
