-- ===== src/Routing/Scoring/Distinct.antt =====
-- safety/routing/scoring.py, `distinct_routes`: the routes kept, and those dropped.
use crime_prevention_and_per.Prelude.{
  nat_eq, Bool-cases, all_below, any, all, All, All-append, any-append, ℕ, zero, suc, ◌+◌, ◌≡◌,
  refl, subst, inl, inr, Bool, true, false, not, ◌||◌, List, [], ◌∷◌, ◌++◌, arith,
}
use crime_prevention_and_per.Routing.Scoring.{distinct_from, distinct_routes}

module _ (same : ℕ → ℕ → Bool) where
  -- No later route of the list is the same as an earlier one.
  abbrev pub AreApart : List ℕ → Type 0
  AreApart [] = Unit
  AreApart (j ∷ kept) = All (λ i. same i j ≡ false) kept × AreApart kept

  -- A route is kept, or it is the same as one that is kept.
  abbrev pub is_covered : List ℕ → ℕ → Bool
  is_covered kept i = any (λ j. nat_eq j i || same i j) kept

  AreApart-append_one :
      (i : ℕ) (kept : List ℕ)
      → all (λ j. not (same i j)) kept ≡ true
      → AreApart kept
      → AreApart (kept ++ i ∷ [])
  AreApart-append_one i [] new apart = (tt, tt)
  AreApart-append_one i (j ∷ kept) new apart = (
    All-append (λ k. same k j ≡ false) kept (i ∷ []) apart.0 (ground arith, tt),
    AreApart-append_one i kept (ground arith) apart.1,
  )

  all_below-append_one :
      (n i : ℕ) (kept : List ℕ)
      → all_below n (is_covered kept) ≡ true
      → all_below n (is_covered (kept ++ i ∷ [])) ≡ true
  all_below-append_one zero i kept h = refl
  all_below-append_one (suc n) i kept h =
      ground (
        arith,
        all_below-append_one n i kept,
        any-append (λ j. nat_eq j n || same n j) kept (i ∷ []),
      )

  old_covered :
      (i : ℕ) (kept : List ℕ) → all (λ j. not (same i j)) kept ≡ false → is_covered kept i ≡ true
  old_covered i [] h = ground arith
  old_covered i (j ∷ kept) h = ground (arith, old_covered i kept)

  new_covered : (i : ℕ) (kept : List ℕ) → is_covered (kept ++ i ∷ []) i ≡ true
  new_covered i kept = ground (arith, any-append (λ j. nat_eq j i || same i j) kept (i ∷ []))

  distinct_from_lem :
      (kept : List ℕ) (i left n : ℕ)
      → i + left ≡ n
      → AreApart kept
      → all_below i (is_covered kept) ≡ true
      → let r = distinct_from same kept i left in AreApart r × (all_below n (is_covered r) ≡ true)
  unfolding distinct_from
  distinct_from_lem kept i zero n e apart covered =
      let here : i ≡ n = omega arith in
      (apart, subst (λ m. all_below m (is_covered kept) ≡ true) here covered)
  distinct_from_lem kept i (suc left) n e apart covered =
      elim (Bool-cases (all (λ j. not (same i j)) kept)) [
        | inl new ↦ rw new (
            distinct_from_lem (kept ++ i ∷ []) (suc i) left n (omega arith)
              (AreApart-append_one i kept new apart)
              (ground (arith, all_below-append_one i i kept covered, new_covered i kept)))
        | inr old ↦ rw old (
            distinct_from_lem kept (suc i) left n (omega arith) apart
              (ground (arith, old_covered i kept old)))
      ]

  -- No route that is kept is the same as one kept before it, and every route is kept or is the same
  -- as one that is.
  pub distinct_routes_lem :
      (n : ℕ)
      → let kept = distinct_routes same n in AreApart kept × (all_below n (is_covered kept) ≡ true)
  unfolding distinct_routes
  distinct_routes_lem n = distinct_from_lem [] 0 n n (omega arith) tt refl
