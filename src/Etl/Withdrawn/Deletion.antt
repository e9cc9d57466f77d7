-- ===== src/Etl/Withdrawn/Deletion.antt =====
-- What a reconciliation may take from silver, and what it leaves behind.
use crime_prevention_and_per.Prelude.{
  Bool-cases, Option-cases, keep, keep-keep, All-all, String_eq, ◌==◌, elem, ℕ, String, ◌≡◌, refl,
  sym, ap, subst, ◌∙◌, ◌⊎◌, inl, inr, Bool, true, false, not, ◌||◌, Option, none, some, List, [],
  ◌∷◌, ◌++◌, arith, eq_iff,
}
use crime_prevention_and_per.Prelude.Sorting.{text_le, any-sorted}
use crime_prevention_and_per.Etl.Withdrawn.{
  Mode, off, report, delete, Basis, Row, reconcile_window, Decision, nothing, remove_all, skip,
  Assessment, in_scope, Count, tally, assess,
}
use crime_prevention_and_per.Etl.Withdrawn.Apply.{Database, doomed, apply_decision, apply}
use crime_prevention_and_per.Etl.Withdrawn.Counts.{count_row, nothing_yet, assessed}

-- A key that the pull has seen is not among the absent ones.
elem-append_one : (k j : String) (ks : List String) → elem k (ks ++ j ∷ []) ≡ (elem k ks || j == k)
elem-append_one k j [] = ground arith
elem-append_one k j (i ∷ ks) = ground (arith, elem-append_one k j ks)

elem_eq : (k j : String) (seen : List String) → j ≡ k → elem k seen ≡ true → elem j seen ≡ true
elem_eq k j seen p h = subst (λ i. elem i seen ≡ true) (sym p) h

tally-unseen :
    (stratum : Row → String) (seen : List String) (k : String) (rows : List Row) (c : Count)
    → elem k seen ≡ true
    → elem k c.absent_keys ≡ false
    → elem k (tally stratum seen rows c).absent_keys ≡ false
unfolding tally
tally-unseen stratum seen k [] c s h = h
tally-unseen stratum seen k (r ∷ rows) c s h =
    tally-unseen stratum seen k rows (count_row stratum seen r c) s (kept (Bool-cases _))
  where
    kept :
        (elem r.incident_key seen ≡ true) ⊎ (elem r.incident_key seen ≡ false)
        → elem k (count_row stratum seen r c).absent_keys ≡ false
    kept (inl here) = rw here h
    kept (inr there) =
        let apart = elem_eq k r.incident_key seen in
        let e = elem-append_one k r.incident_key c.absent_keys in
        let t = eq_iff r.incident_key k in rw there (ground arith)

-- Of the pull's keys, none is absent.
assess-unseen :
    (stratum : Row → String) (silver : List Row) (basis : Option Basis) (source_id dataset : String)
    (seen : List String) (since until now : ℕ) (a : Assessment) (k : String)
    → assess stratum silver basis source_id dataset seen since until now ≡ some a
    → elem k seen ≡ true
    → (elem k a.absent_keys ≡ false) × (a.source_id ≡ source_id) × (a.dataset ≡ dataset)
unfolding assess
assess-unseen stratum silver none source_id dataset seen since until now a k p s = absurd (cc)
assess-unseen stratum silver (some basis) source_id dataset seen since until now a k p s =
    elim (Option-cases (reconcile_window since until now)) [
      | inl e ↦ absurd (ground arith)
      | inr ((lo, hi), e) ↦
          let rows = keep (in_scope source_id dataset basis lo hi) silver in
          let made : assessed stratum source_id dataset basis lo hi seen rows ≡ a = ground arith in
          let unseen =
            any-sorted text_le (λ j. j == k) (tally stratum seen rows nothing_yet).absent_keys
            ∙ tally-unseen stratum seen k rows nothing_yet s refl in
          subst
            (λ x.
              (elem k x.absent_keys ≡ false) × (x.source_id ≡ source_id) × (x.dataset ≡ dataset))
            made (unseen, refl, refl)
    ]

-- The outcome of a deletion on silver: nothing, or the doomed rows go.
apply-silver :
    (db : Database) (pull : ℕ) (a : Assessment) (mode : Mode)
    → ((apply db pull a mode).1.silver ≡ db.silver)
      ⊎ ((apply db pull a mode).1.silver ≡ keep (λ r. not (doomed a r)) db.silver)
unfolding apply
apply-silver db pull a mode = by_decision a.decision mode
  where
    by_decision :
        (d : Decision) (m : Mode)
        → ((apply_decision d m db pull a).1.silver ≡ db.silver)
          ⊎ ((apply_decision d m db pull a).1.silver ≡ keep (λ r. not (doomed a r)) db.silver)
    by_decision nothing m = inl refl
    by_decision (skip reason) m = inl refl
    by_decision remove_all off = inl refl
    by_decision remove_all report = inl refl
    by_decision remove_all delete = inr (ground arith)

-- Rows that the pull has returned, and rows outside the source's dataset or the window.
abbrev pub is_safe : List String → Assessment → Row → Bool
is_safe seen a r =
    elem r.incident_key seen || not (in_scope a.source_id a.dataset a.basis a.lo a.hi r)

-- Reconciling never touches a row whose key the pull returned, nor one of another source, of
-- another dataset or outside the window that was read: after `apply`, whatever the mode and
-- whatever silver holds by then, silver has the same such rows, in their order.
pub apply_keeps :
    (stratum : Row → String) (silver : List Row) (basis : Option Basis) (source_id dataset : String)
    (seen : List String) (since until now : ℕ) (a : Assessment) (db : Database) (pull : ℕ)
    (mode : Mode)
    → assess stratum silver basis source_id dataset seen since until now ≡ some a
    → keep (is_safe seen a) (apply db pull a mode).1.silver ≡ keep (is_safe seen a) db.silver
apply_keeps stratum silver basis source_id dataset seen since until now a db pull mode p =
    elim (apply-silver db pull a mode) [
      | inl q ↦ ap (keep (is_safe seen a)) q
      | inr q ↦
          ap (keep (is_safe seen a)) q
          ∙ keep-keep (is_safe seen a) (λ r. not (doomed a r)) db.silver
              (All-all (λ r. (is_safe seen a r ≡ false) ⊎ (not (doomed a r) ≡ true)) db.silver
                spared)
    ]
  where
    spared : (r : Row) → (is_safe seen a r ≡ false) ⊎ (not (doomed a r) ≡ true)
    spared r = elim (Bool-cases (elem r.incident_key seen)) [
      | inl here ↦
          let e =
            (assess-unseen stratum silver basis source_id dataset seen since until now a
              r.incident_key p here).0 in
          inr (ground arith)
      | inr there ↦ ground arith
    ]
