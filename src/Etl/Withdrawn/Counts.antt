-- ===== src/Etl/Withdrawn/Counts.antt =====
-- The guard's counts are the counts of the rows.
use crime_prevention_and_per.Prelude.{
  if◌then◌else◌, Bool-cases, Option-cases, length, keep, All, sum_by, length-append, sum_by-map,
  String_eq, ◌==◌, elem, ℕ, suc, ◌+◌, ◌*◌, ◌≤◌, ◌<◌, String, ◌≡◌, refl, sym, ap, subst, ◌∙◌, inl,
  inr, Option, none, some, List, [], ◌∷◌, ◌++◌, arith,
}
use crime_prevention_and_per.OrderedDict.{same_refl, lookup-put, IsDistinct-put, lookup, IsDistinct}
use crime_prevention_and_per.OrderedDict.Counting.{
  key_sum, key_sum-put_new, key_sum-put_old, count_of, add_one, count_of-add_one, total-add_one,
  key_sum-add_one, key_sum-absent,
}
use crime_prevention_and_per.Etl.Withdrawn.{
  Basis, Row, reconcile_window, Stratum, remove_all, decide, Assessment, in_scope, Count, strata_of,
  tally, assess,
}
use crime_prevention_and_per.Prelude.Sorting.{text_le, sorted, sum_by-sorted, length-sorted}
use crime_prevention_and_per.Etl.Withdrawn.Guard.{total_prior, total_absent, LooksWhole, decide_lem}

abbrev gone_of : Count → ℕ
gone_of c = key_sum (λ name. count_of name c.gone) c.prior

-- A stratum with no rows has none absent; each count is of the rows that the loop has passed.
record Tallied (n : ℕ) (c : Count) : Type 0 where
  distinct : IsDistinct c.prior
  known : (name : String) → lookup name c.prior ≡ none → count_of name c.gone ≡ 0
  rows : sum_by (λ x. x.1) c.prior ≡ n
  absent : gone_of c ≡ length c.absent_keys

-- What a further row in stratum `s` does to the sum over the strata.
seen_sum :
    (s : String) (c : Count)
    → ((name : String) → lookup name c.prior ≡ none → count_of name c.gone ≡ 0)
    → key_sum (λ name. count_of name c.gone) (add_one s c.prior) ≡ gone_of c
seen_sum s c known = elim (Option-cases (lookup s c.prior)) [
  | inl p ↦ omega (
    arith,
    key_sum-put_new (λ name. count_of name c.gone) s (count_of s c.prior + 1) c.prior p,
    known s p,
  )
  | inr (w, p) ↦
      key_sum-put_old (λ name. count_of name c.gone) s (count_of s c.prior + 1) w c.prior p
]

absent_sum :
    (s : String) (c : Count)
    → IsDistinct c.prior
    → ((name : String) → lookup name c.prior ≡ none → count_of name c.gone ≡ 0)
    → key_sum (λ name. count_of name (add_one s c.gone)) (add_one s c.prior) ≡ gone_of c + 1
absent_sum s c d known =
    let h = λ (name : String). count_of name (add_one s c.gone) in
    let counted : count_of s (add_one s c.gone) ≡ count_of s c.gone + 1 =
      count_of-add_one s s c.gone ∙ (rw (same_refl s) refl) in
    elim (Option-cases (lookup s c.prior)) [
      | inl p ↦ omega (
        arith,
        key_sum-put_new h s (count_of s c.prior + 1) c.prior p,
        key_sum-absent s c.gone c.prior p,
        counted,
        known s p,
      )
      | inr (w, p) ↦ omega (
        arith,
        key_sum-put_old h s (count_of s c.prior + 1) w c.prior p,
        key_sum-add_one s w c.gone c.prior d p,
      )
    ]

known_after :
    (s name : String) (c : Count)
    → ((j : String) → lookup j c.prior ≡ none → count_of j c.gone ≡ 0)
    → lookup name (add_one s c.prior) ≡ none
    → (count_of name c.gone ≡ 0) × (count_of name (add_one s c.gone) ≡ 0)
known_after s name c known p = elim (Bool-cases (s == name)) [
  | inl same ↦ let q = lookup-put s name (count_of s c.prior + 1) c.prior in absurd (ground arith)
  | inr other ↦
      let q = lookup-put s name (count_of s c.prior + 1) c.prior in
      let absent : lookup name c.prior ≡ none = ground arith in
      let none_gone = known name absent in
      (none_gone, count_of-add_one s name c.gone ∙ (rw other none_gone))
]

module _ (stratum : Row → String) (seen : List String) where
  abbrev pub count_row : Row → Count → Count
  count_row r c =
      if elem r.incident_key seen
      then record c { prior = add_one (stratum r) c.prior }
      else record {
        prior = add_one (stratum r) c.prior;
        gone = add_one (stratum r) c.gone;
        absent_keys = c.absent_keys ++ r.incident_key ∷ [];
      }

  count_row-Tallied : (r : Row) (n : ℕ) (c : Count) → Tallied n c → Tallied (n + 1) (count_row r c)
  count_row-Tallied r n c h =
      let s = stratum r in
      let apart = IsDistinct-put s (count_of s c.prior + 1) c.prior h.distinct in
      let total : sum_by (λ x. x.1) (add_one s c.prior) ≡ n + 1 =
        total-add_one s c.prior ∙ ap (λ m. m + 1) h.rows in
      elim (Bool-cases (elem r.incident_key seen)) [
        | inl here ↦ rw here (record {
          distinct = apart;
          known = λ name p. (known_after s name c h.known p).0;
          rows = total;
          absent = seen_sum s c h.known ∙ h.absent;
        })
        | inr there ↦ rw there (record {
          distinct = apart;
          known = λ name p. (known_after s name c h.known p).1;
          rows = total;
          absent =
              let a = absent_sum s c h.distinct h.known in
              let b = h.absent in
              omega (arith, a, b, length-append c.absent_keys (r.incident_key ∷ []));
        })
      ]

  tally-Tallied :
      (rows : List Row) (n : ℕ) (c : Count)
      → Tallied n c
      → Tallied (n + length rows) (tally stratum seen rows c)
  unfolding tally
  tally-Tallied [] n c h = subst (λ m. Tallied m c) (omega arith) h
  tally-Tallied (r ∷ rows) n c h =
      let e : n + 1 + length rows ≡ n + suc (length rows) = omega arith in
      subst (λ m. Tallied m (tally stratum seen rows (count_row r c))) e
        (tally-Tallied rows (n + 1) (count_row r c) (count_row-Tallied r n c h))

abbrev pub nothing_yet : Count
nothing_yet = record { prior = []; gone = []; absent_keys = [] }

nothing_yet-Tallied : Tallied 0 nothing_yet
unfolding lookup
nothing_yet-Tallied = record { distinct = tt; known = λ name p. refl; rows = refl; absent = refl }

abbrev pub assessed :
    (Row → String) → String → String → Basis → ℕ → ℕ → List String → List Row → Assessment
assessed stratum source_id dataset basis lo hi seen rows =
    let counted = tally stratum seen rows nothing_yet in
    record {
      source_id = source_id;
      dataset = dataset;
      basis = basis;
      lo = lo;
      hi = hi;
      prior = length rows;
      absent_keys = sorted text_le counted.absent_keys;
      strata = strata_of counted;
      decision = decide (strata_of counted);
    }

-- Over all strata, the rows held are the rows read, and the absent ones the absent keys.
strata-totals :
    (stratum : Row → String) (seen : List String) (rows : List Row)
    → let c = tally stratum seen rows nothing_yet in
      (total_prior (strata_of c) ≡ length rows)
      × (total_absent (strata_of c) ≡ length (sorted text_le c.absent_keys))
strata-totals stratum seen rows =
    let c = tally stratum seen rows nothing_yet in
    let t = tally-Tallied stratum seen rows 0 nothing_yet nothing_yet-Tallied in
    let by_name = λ (x y : String × ℕ). text_le x.0 y.0 in
    let made = λ (x : String × ℕ).
      let s : Stratum = record { name = x.0; prior = x.1; absent = count_of x.0 c.gone } in s in
    let names = sorted by_name c.prior in
    (
      sum_by-map (λ s. s.prior) made names
          ∙ sum_by-sorted by_name (λ x. x.1) c.prior
          ∙ t.rows
          ∙ (omega arith),
      sum_by-map (λ s. s.absent) made names
          ∙ sum_by-sorted by_name (λ x. count_of x.0 c.gone) c.prior
          ∙ t.absent
          ∙ sym (length-sorted text_le c.absent_keys),
    )

-- Whenever the guard of an assessment lets a deletion through: some of the rows that silver holds
-- for the window are absent from the pull, at most a tenth of those rows are, and every stratum
-- looks whole.
pub assess_guard :
    (stratum : Row → String) (silver : List Row) (basis : Option Basis) (source_id dataset : String)
    (seen : List String) (since until now : ℕ) (a : Assessment)
    → assess stratum silver basis source_id dataset seen since until now ≡ some a
    → a.decision ≡ remove_all
    → let held = keep (in_scope source_id dataset a.basis a.lo a.hi) silver in
      (0 < length a.absent_keys)
      × (10 * length a.absent_keys ≤ length held)
      × All LooksWhole a.strata
unfolding assess
assess_guard stratum silver none source_id dataset seen since until now a p d = absurd (cc)
assess_guard stratum silver (some basis) source_id dataset seen since until now a p d =
    elim (Option-cases (reconcile_window since until now)) [
      | inl e ↦ absurd (ground arith)
      | inr ((lo, hi), e) ↦
          let rows = keep (in_scope source_id dataset basis lo hi) silver in
          let start : Count = record { prior = []; gone = []; absent_keys = [] } in
          let made : assessed stratum source_id dataset basis lo hi seen rows ≡ a = ground arith in
          let (some_absent, few, parts) =
            (decide_lem (strata_of (tally stratum seen rows start))).0
              (subst (λ x. x.decision ≡ remove_all) (sym made) d) in
          let (priors, absents) = strata-totals stratum seen rows in
          subst
            (λ x.
              let held = keep (in_scope source_id dataset x.basis x.lo x.hi) silver in
              (0 < length x.absent_keys)
              × (10 * length x.absent_keys ≤ length held)
              × All LooksWhole x.strata)
            made (omega (arith, absents, some_absent), omega (arith, priors, absents, few), parts)
    ]
