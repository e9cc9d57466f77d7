-- ===== src/Etl/Promote/Stale.antt =====
-- safety/etl/transform.py, `_DEDUPE_ACROSS_YEARS_SQL`: rows of an incident in other years.
use crime_prevention_and_per.Prelude.{
  nat_eq, All, All-zip, All-map, keep_same, keep-keep_and, All-mapped, String_eq, ℕ, String, ◌≡◌,
  refl, ◌∙◌, true, false, not, Option, List, [], ◌∷◌, map, arith,
}
use crime_prevention_and_per.Etl.Promote.{
  Staged, CrosswalkRow, Stored, same_key, stored_of, is_stale, dedupe_across_years,
}
use crime_prevention_and_per.Etl.Promote.Rows.{
  rows_of, rows_at, AreDistinct, same_key_sym, same_key_trans, AreApart,
}

module _ (year_of : ℕ → ℕ) where
  not_stale :
      (t : Staged) (i : Stored) (staged : List Staged)
      → All (λ s. same_key s t ≡ false) staged
      → same_key i.incident t ≡ true
      → is_stale year_of staged i ≡ false
  not_stale t i [] h k = refl
  not_stale t i (s ∷ staged) h k =
      ground (arith, not_stale t i staged h.1, same_key_trans i.incident t s, same_key_sym s t)

  -- Of a staged incident the rows of other years are stale.
  abbrev pub Stales : List Staged → Staged → Type 0
  Stales staged s =
      (i : Stored)
      → same_key i.incident s ≡ true
      → is_stale year_of staged i ≡ not (nat_eq i.occurred_year (year_of s.local_date))

  pub All-Stales : (staged : List Staged) → AreDistinct staged → All (Stales staged) staged
  All-Stales [] h = tt
  All-Stales (s ∷ staged) h = (
    λ i k.
        ground (arith, not_stale s i staged (All-map _ _ staged (λ t p. same_key_sym t s ∙ p) h.0)),
    All-zip _ _ _ staged
        (λ t p q i k. ground (arith, p, q i, same_key_trans i.incident t s, same_key_sym s t)) h.0
        (All-Stales staged h.1),
  )

  pub AreApart-map :
      (f : Staged → Stored) (staged : List Staged)
      → ((s : Staged) → (f s).incident ≡ s)
      → AreDistinct staged
      → AreApart (map f staged)
  AreApart-map f [] same h = tt
  AreApart-map f (s ∷ staged) same h = (
    All-mapped (λ q. same_key (f s).incident q.incident ≡ false) f staged
        (All-map _ _ staged (λ t p. rw (same s) (rw (same t) p)) h.0),
    AreApart-map f staged same h.1,
  )

  pub rows_of-dedupe :
      (s : Staged) (c : Option CrosswalkRow) (version : String) (staged : List Staged)
      (silver : List Stored)
      → Stales staged s
      → rows_of s (dedupe_across_years year_of staged silver)
        ≡ rows_at (stored_of year_of version c s) silver
  unfolding dedupe_across_years
  rows_of-dedupe s c version staged silver stales =
      keep-keep_and (λ i. same_key i.incident s) (λ i. not (is_stale year_of staged i)) silver
      ∙ keep_same _ _ silver (λ i. ground (arith, stales i))

  pub rows_of-dedupe_other :
      (t : Staged) (staged : List Staged) (silver : List Stored)
      → All (λ s. same_key s t ≡ false) staged
      → rows_of t (dedupe_across_years year_of staged silver) ≡ rows_of t silver
  unfolding dedupe_across_years
  rows_of-dedupe_other t staged silver h =
      keep-keep_and (λ i. same_key i.incident t) (λ i. not (is_stale year_of staged i)) silver
      ∙ keep_same _ _ silver (λ i. ground (arith, not_stale t i staged h))
