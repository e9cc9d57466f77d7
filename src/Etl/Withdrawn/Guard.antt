-- ===== src/Etl/Withdrawn/Guard.antt =====
-- The outage guard: what a deletion takes for granted.
use crime_prevention_and_per.Prelude.{
  Bool-cases, Option-cases, All, sum_by, ℕ, ◌*◌, ◌≤◌, ◌<◌, ◌≡◌, refl, ◌≢◌, ◌↔◌, ◌⊎◌, inl, inr, Bool,
  false, none, List, [], ◌∷◌, arith,
}
use crime_prevention_and_per.Etl.Withdrawn.{Stratum, remove_all, partial_of, emptied, first, decide}

abbrev pub total_prior : List Stratum → ℕ
total_prior strata = sum_by (λ s. s.prior) strata

abbrev pub total_absent : List Stratum → ℕ
total_absent strata = sum_by (λ s. s.absent) strata

-- A stratum looks whole: nine tenths of it were confirmed if it has 50 rows, and one at least if it
-- has three.
abbrev pub LooksWhole : Stratum → Type 0
LooksWhole s = ((s.prior < 50) ⊎ (10 * s.absent ≤ s.prior)) × ((s.prior < 3) ⊎ (s.absent ≢ s.prior))

first-none :
    (p q : Stratum → Bool) (strata : List Stratum)
    → first p strata ≡ none
    → first q strata ≡ none
    → All (λ s. (p s ≡ false) × (q s ≡ false)) strata
unfolding first
first-none p q [] h k = tt
first-none p q (s ∷ strata) h k = elim (Bool-cases (p s)) [
  | inl a ↦ absurd (ground arith)
  | inr a ↦ elim (Bool-cases (q s)) [
    | inl b ↦ absurd (ground arith)
    | inr b ↦ ((a, b), first-none p q strata (ground arith) (ground arith))
  ]
]

whole : (s : Stratum) → partial_of s ≡ false → emptied s ≡ false → LooksWhole s
whole s h k = ground arith

whole_all :
    (strata : List Stratum)
    → All (λ s. (partial_of s ≡ false) × (emptied s ≡ false)) strata
    → All LooksWhole strata
whole_all [] h = tt
whole_all (s ∷ strata) h = (whole s h.0.0 h.0.1, whole_all strata h.1)

not_partial : (s : Stratum) → LooksWhole s → partial_of s ≡ false
not_partial s (inl a, k) = ground arith
not_partial s (inr a, k) = ground arith

not_emptied : (s : Stratum) → LooksWhole s → emptied s ≡ false
not_emptied s (h, inl a) = ground arith
not_emptied s (h, inr a) = ground arith

none-first :
    (strata : List Stratum)
    → All LooksWhole strata
    → (first partial_of strata ≡ none) × (first emptied strata ≡ none)
unfolding first
none-first [] h = (refl, refl)
none-first (s ∷ strata) h =
    let (a, b) = none-first strata h.1 in (rw (not_partial s h.0) a, rw (not_emptied s h.0) b)

-- What must hold for rows to be deleted.
abbrev pub Confirmed : List Stratum → Type 0
Confirmed strata =
    (0 < total_absent strata)
    × (10 * total_absent strata ≤ total_prior strata)
    × All LooksWhole strata

confirmed : (strata : List Stratum) → decide strata ≡ remove_all → Confirmed strata
unfolding decide
confirmed strata p = (ground arith, ground arith, parts)
  where
    clean : (first partial_of strata ≡ none) × (first emptied strata ≡ none)
    clean = elim (Option-cases (first partial_of strata)) [
      | inr (s, q) ↦ absurd (ground arith)
      | inl a ↦ elim (Option-cases (first emptied strata)) [
        | inr (s, q) ↦ absurd (ground arith)
        | inl b ↦ (a, b)
      ]
    ]

    parts : All LooksWhole strata
    parts = whole_all strata (first-none partial_of emptied strata clean.0 clean.1)

deletes : (strata : List Stratum) → Confirmed strata → decide strata ≡ remove_all
unfolding decide
deletes strata (some_absent, few, parts) = ground (arith, none-first strata parts)

-- The guard lets a deletion through exactly if some row is absent, at most a tenth of the rows are,
-- and every stratum looks whole: at most a tenth of a stratum of 50 rows or more is absent, and no
-- stratum of three rows or more is absent altogether.
pub decide_lem : (strata : List Stratum) → (decide strata ≡ remove_all) ↔ Confirmed strata
decide_lem strata = (confirmed strata, deletes strata)
