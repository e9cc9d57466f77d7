-- ===== src/Routing/Scoring/Offers.antt =====
-- safety/routing/scoring.py, `pick`: what the offered route is, and what a refusal to offer one
-- means.
use crime_prevention_and_per.Prelude.{
  Bool-cases, Option-cases, get_elem?, any, all, ℕ, suc, ◌+◌, ◌-◌, ◌≤◌, String, ◌≡◌, refl, ap, ◌∙◌,
  ◌⊎◌, inl, inr, Bool, true, false, not, ◌&&◌, ◌||◌, Option, none, some, List, [], ◌∷◌, arith,
}
use crime_prevention_and_per.Routing.Scoring.{
  Floats, Candidate, single_route, not_rated, too_slow, not_lower, Pick, lower, why, le,
  extra_allowance_s, drops, is_near, better, consider, best_from, is_lower, settle, pick_from, pick,
}

-- What is used of the order of floats: it is total and transitive, and a difference from a fixed
-- value does not grow with what is subtracted.
pub record IsOrdered {F : Type 0} (f : Floats F) : Type 0 where
  pub lt_le : (a b : F) → f.lt a b ≡ true → le f a b ≡ true
  pub le_trans : (a b c : F) → le f a b ≡ true → le f b c ≡ true → le f a c ≡ true
  pub sub_le : (x a b : F) → le f a b ≡ true → le f (f.sub x b) (f.sub x a) ≡ true

module _ {F : Type 0} (f : Floats F) (laws : IsOrdered f) (near : Candidate F → Bool) where
  abbrev pub is_rated : Candidate F → Bool
  is_rated c = elim c.mean_ratio [ none ↦ false | some _ ↦ true ]

  -- No route within the allowance has a lower mean.
  abbrev pub is_least : F → Candidate F → Bool
  is_least mean c = elim c.mean_ratio [ none ↦ true | some other ↦ not (near c) || le f mean other ]

  -- The index of a route within the allowance whose mean is `mean`, the least.
  abbrev pub Found : ℕ → List (Candidate F) → ℕ → F → Type 0
  Found i routes k mean =
      (j : ℕ) × (c : Candidate F) × (k ≡ i + j)
      × (get_elem? routes j ≡ some c)
      × (near c ≡ true)
      × (c.mean_ratio ≡ some mean)
      × (all (is_least mean) routes ≡ true)

  abbrev pub Best : ℕ → List (Candidate F) → Option (ℕ × F) → Type 0
  Best i routes none = any (λ c. near c && is_rated c) routes ≡ false
  Best i routes (some (k, mean)) = Found i routes k mean

  weaken :
      (low mean : F) (routes : List (Candidate F))
      → le f low mean ≡ true
      → all (is_least mean) routes ≡ true
      → all (is_least low) routes ≡ true
  weaken low mean [] p h = refl
  weaken low mean (c ∷ routes) p h = elim (Option-cases c.mean_ratio) [
    | inl unrated ↦ ground (arith, weaken low mean routes p)
    | inr (other, rated) ↦ ground (arith, weaken low mean routes p, laws.le_trans low mean other p)
  ]

  none_least :
      (mean : F) (routes : List (Candidate F))
      → any (λ c. near c && is_rated c) routes ≡ false
      → all (is_least mean) routes ≡ true
  none_least mean [] h = refl
  none_least mean (c ∷ routes) h = elim (Option-cases c.mean_ratio) [
    | inl unrated ↦ ground (arith, none_least mean routes)
    | inr (other, rated) ↦ ground (arith, none_least mean routes)
  ]

  -- A route that is not within the allowance, or not comparable, changes nothing.
  pass-Best :
      (i : ℕ) (c : Candidate F) (routes : List (Candidate F)) (r : Option (ℕ × F))
      → (near c && is_rated c) ≡ false
      → Best (suc i) routes r
      → Best i (c ∷ routes) r
  pass-Best i c routes none out best = ground arith
  pass-Best i c routes (some (k, mean)) out (j, d, at, there, is_near, has, least) = (
    suc j,
    d,
    omega arith,
    there,
    is_near,
    has,
    elim (Option-cases c.mean_ratio) [ inl e ↦ ground arith | inr (x, e) ↦ ground arith ],
  )

  better-Best :
      (i : ℕ) (c : Candidate F) (mean : F) (routes : List (Candidate F)) (r : Option (ℕ × F))
      → near c ≡ true
      → c.mean_ratio ≡ some mean
      → Best (suc i) routes r
      → Best i (c ∷ routes) (better f i mean r)
  better-Best i c mean routes none within has none_near = (
    0,
    c,
    omega arith,
    refl,
    within,
    has,
    ground (arith, none_least mean routes none_near, laws.lt_le mean mean),
  )
  better-Best i c mean routes (some (k, other)) within has
        (j, d, at, there, is_near, rated, least) =
      elim (Bool-cases (f.lt other mean)) [
        | inl below ↦
            rw below
              (suc j, d, omega arith, there, is_near, rated, ground (arith, laws.lt_le other mean))
        | inr above ↦ rw above (
          0,
          c,
          omega arith,
          refl,
          within,
          has,
          ground (arith, weaken mean other routes, laws.lt_le mean mean),
        )
      ]

  consider-Best :
      (i : ℕ) (c : Candidate F) (routes : List (Candidate F)) (r : Option (ℕ × F)) (b : Bool)
      (mean_ratio : Option F)
      → near c ≡ b
      → c.mean_ratio ≡ mean_ratio
      → Best (suc i) routes r
      → Best i (c ∷ routes) (consider f i b mean_ratio r)
  consider-Best i c routes r b none e rated ih = pass-Best i c routes r (ground arith) ih
  consider-Best i c routes r true (some mean) e rated ih = better-Best i c mean routes r e rated ih
  consider-Best i c routes r false (some mean) e rated ih = pass-Best i c routes r (ground arith) ih

  pub best_from-Best :
      (i : ℕ) (routes : List (Candidate F)) → Best i routes (best_from f near i routes)
  unfolding best_from
  best_from-Best i [] = refl
  best_from-Best i (c ∷ routes) =
      consider-Best i c routes _ (near c) c.mean_ratio refl refl (best_from-Best (suc i) routes)

-- What an answer says of the fastest route and the others, which have the indexes from 1 on.
module _ {F : Type 0} (f : Floats F) where
  abbrev pub Answers : String → Candidate F → List (Candidate F) → Pick → Type 0
  Answers mode first others (lower k) =
      let near = is_near f first.duration_s (extra_allowance_s f mode first.duration_s) in
      (fastest : F) × (mean : F) × (first.mean_ratio ≡ some fastest)
      × (drops f fastest mean ≡ true)
      × (1 ≤ k)
      × (c : Candidate F) × (get_elem? others (k - 1) ≡ some c)
      × (near c ≡ true)
      × (c.mean_ratio ≡ some mean)
      × (all (λ d. elim d.mean_ratio [ none ↦ true | some other ↦ not (near d) || le f mean other ])
            others
          ≡ true)
  Answers mode first others (why single_route) = others ≡ []
  Answers mode first others (why not_rated) = first.mean_ratio ≡ none
  Answers mode first others (why not_lower) =
      (fastest : F) × (first.mean_ratio ≡ some fastest) × (any (is_lower f fastest) others ≡ false)
  Answers mode first others (why too_slow) =
      let near = is_near f first.duration_s (extra_allowance_s f mode first.duration_s) in
      (fastest : F) × (first.mean_ratio ≡ some fastest)
      × (any (λ c. near c && is_lower f fastest c) others ≡ false)
      × ((any (is_lower f fastest) others ≡ true)
          ⊎ (any (λ c. near c && elim c.mean_ratio [ none ↦ false | some _ ↦ true ]) others
              ≡ false))

module _ {F : Type 0} (f : Floats F) (laws : IsOrdered f) (near : Candidate F → Bool) where
  none_near_lower :
      (fastest : F) (routes : List (Candidate F))
      → any (λ c. near c && is_rated f laws near c) routes ≡ false
      → any (λ c. near c && is_lower f fastest c) routes ≡ false
  none_near_lower fastest [] h = refl
  none_near_lower fastest (c ∷ routes) h = elim (Option-cases c.mean_ratio) [
    | inl e ↦ ground (arith, none_near_lower fastest routes)
    | inr (x, e) ↦ ground (arith, none_near_lower fastest routes)
  ]

  -- If the least mean is no clear drop, none within the allowance is.
  least_near_lower :
      (fastest mean : F) (routes : List (Candidate F))
      → drops f fastest mean ≡ false
      → all (is_least f laws near mean) routes ≡ true
      → any (λ c. near c && is_lower f fastest c) routes ≡ false
  least_near_lower fastest mean [] flat h = refl
  least_near_lower fastest mean (c ∷ routes) flat h = elim (Option-cases c.mean_ratio) [
    | inl e ↦ ground (arith, least_near_lower fastest mean routes)
    | inr (x, e) ↦ ground (
      arith,
      least_near_lower fastest mean routes,
      laws.le_trans mean x (f.mul fastest (f.sub (f.lit 1000) (f.lit 100))),
      laws.sub_le fastest mean x,
      laws.le_trans (f.lit 100) (f.sub fastest x) (f.sub fastest mean),
    )
  ]

module _ {F : Type 0} (f : Floats F) (laws : IsOrdered f) where
  settle-Answers :
      (mode : String) (first : Candidate F) (others : List (Candidate F)) (fastest : F)
      (r : Option (ℕ × F))
      → first.mean_ratio ≡ some fastest
      → let near = is_near f first.duration_s (extra_allowance_s f mode first.duration_s) in
        Best f laws near 1 others r → Answers f mode first others (settle f fastest others r)
  unfolding settle
  settle-Answers mode first others fastest none rated best =
      let near = is_near f first.duration_s (extra_allowance_s f mode first.duration_s) in
      (fastest, rated, none_near_lower f laws near fastest others best, inr best)
  settle-Answers mode first others fastest (some (k, mean)) rated
        (j, c, at, there, within, has, least) =
      let near = is_near f first.duration_s (extra_allowance_s f mode first.duration_s) in
      let index : k - 1 ≡ j = omega arith in
      elim (Bool-cases (drops f fastest mean)) [
        | inl clear ↦ rw clear (
          fastest,
          mean,
          rated,
          clear,
          omega arith,
          c,
          ap (get_elem? others) index ∙ there,
          within,
          has,
          least,
        )
        | inr flat ↦
            let none_lower = least_near_lower f laws near fastest mean others flat least in
            elim (Bool-cases (any (is_lower f fastest) others)) [
              | inl slower ↦ rw (flat, slower) (fastest, rated, none_lower, inl slower)
              | inr same ↦ rw (flat, same) (fastest, rated, same)
            ]
      ]

  pick_from-Answers :
      (mode : String) (first : Candidate F) (others : List (Candidate F)) (o : Option F)
      → first.mean_ratio ≡ o
      → Answers f mode first others (pick_from f mode first others o)
  unfolding pick_from
  pick_from-Answers mode first others none unrated = unrated
  pick_from-Answers mode first others (some fastest) rated =
      let near = is_near f first.duration_s (extra_allowance_s f mode first.duration_s) in
      settle-Answers mode first others fastest _ rated (best_from-Best f laws near 1 others)

  -- An offered route is a comparable one within the allowance, its mean is at least both drops
  -- below the fastest route's, and no comparable route within the allowance has a lower mean.
  -- Otherwise there is no other route, or the fastest is not rated, or no route within the
  -- allowance is clearly lower: with `too_slow` there is a clearly lower route beyond the allowance
  -- or no comparable route within it, with `not_lower` no route is clearly lower at all. Floats are
  -- ordered.
  pub pick-Answers :
      (mode : String) (first : Candidate F) (others : List (Candidate F))
      → Answers f mode first others (pick f mode first others)
  unfolding pick
  pick-Answers mode first [] = refl
  pick-Answers mode first (c ∷ others) =
      pick_from-Answers mode first (c ∷ others) first.mean_ratio refl
