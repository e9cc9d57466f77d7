-- ===== src/Etl/Withdrawn/Archive.antt =====
-- Deleted rows are archived, and gold is told from which day on.
use crime_prevention_and_per.Prelude.{
  nat_eq, nat_eq_iff, Bool-cases, Option-cases, length, keep, All, sum_by, sum_by-append,
  sum_by-map, sum_by-keep, ℕ, ◌+◌, ◌≤◌, ◌≡◌, refl, sym, ap, subst, ◌⊎◌, inl, inr, Option, none,
  some, List, [], ◌∷◌, ◌++◌, map, arith,
}
use crime_prevention_and_per.Etl.Pending.{mark, pending_of}
use crime_prevention_and_per.Etl.Pending.Marks.{Covers, mark-Covers}
use crime_prevention_and_per.Etl.Withdrawn.{
  Mode, off, report, delete, Row, Decision, nothing, remove_all, skip, Assessment,
}
use crime_prevention_and_per.Etl.Withdrawn.Apply.{
  Archived, Database, doomed, delete_rows, earliest, delete_absent, apply_decision, apply,
}

abbrev pub in_silver : (Row → ℕ) → Database → ℕ
in_silver f db = sum_by f db.silver

abbrev pub in_archive : (Row → ℕ) → Database → ℕ
in_archive f db = sum_by (λ x. f x.row) db.archive

abbrev archived : ℕ → Row → Archived
archived pull r = record { pull_id = pull; row = r }

delete_rows-total :
    (f : Row → ℕ) (db : Database) (pull : ℕ) (a : Assessment)
    → in_silver f (delete_rows db pull a) + in_archive f (delete_rows db pull a)
      ≡ in_silver f db + in_archive f db
unfolding delete_rows
delete_rows-total f db pull a =
    let gone = keep (doomed a) db.silver in
    omega (
      arith,
      sum_by-keep f (doomed a) db.silver,
      sum_by-append (λ x. f x.row) db.archive (map (archived pull) gone),
      sum_by-map (λ x. f x.row) (archived pull) gone,
    )

delete_absent-tables :
    (db : Database) (pull : ℕ) (a : Assessment)
    → ((delete_absent db pull a).1.silver ≡ (delete_rows db pull a).silver)
      × ((delete_absent db pull a).1.archive ≡ (delete_rows db pull a).archive)
unfolding delete_absent
delete_absent-tables db pull a = ground arith

-- No row is ever lost: whatever is counted or summed over rows, over silver and the archive
-- together it is the same before and after `apply`, in every mode and for every decision.
pub apply-total :
    (f : Row → ℕ) (db : Database) (pull : ℕ) (a : Assessment) (mode : Mode)
    → let db' = (apply db pull a mode).1 in
      in_silver f db' + in_archive f db' ≡ in_silver f db + in_archive f db
unfolding apply
apply-total f db pull a mode = by_decision a.decision mode
  where
    by_decision :
        (d : Decision) (m : Mode)
        → let db' = (apply_decision d m db pull a).1 in
          in_silver f db' + in_archive f db' ≡ in_silver f db + in_archive f db
    by_decision nothing m = refl
    by_decision (skip reason) m = refl
    by_decision remove_all off = refl
    by_decision remove_all report = refl
    by_decision remove_all delete =
        let (s, t) = delete_absent-tables db pull a in
        omega (arith, ap (sum_by f) s, ap (sum_by (λ x. f x.row)) t, delete_rows-total f db pull a)

-- A day that is found, and is no later.
abbrev AtMost : Option ℕ → ℕ → Type 0
AtMost none day = ⊥
AtMost (some d) day = d ≤ day

AtMost-earlier :
    (pull day : ℕ) (x : Archived) (xs : List Archived)
    → AtMost (earliest pull xs) day
    → AtMost (earliest pull (x ∷ xs)) day
unfolding earliest
AtMost-earlier pull day x xs h = elim (Option-cases (earliest pull xs)) [
  | inl p ↦ absurd (subst (λ o. AtMost o day) p h)
  | inr (d, p) ↦
      let le : d ≤ day = subst (λ o. AtMost o day) p h in
      elim (Bool-cases (nat_eq x.pull_id pull)) [
        | inl here ↦ rw (here, p) (omega arith)
        | inr there ↦ rw there h
      ]
]

AtMost-append :
    (pull day : ℕ) (xs ys : List Archived)
    → AtMost (earliest pull ys) day
    → AtMost (earliest pull (xs ++ ys)) day
AtMost-append pull day [] ys h = h
AtMost-append pull day (x ∷ xs) ys h =
    AtMost-earlier pull day x (xs ++ ys) (AtMost-append pull day xs ys h)

AtMost-head :
    (pull : ℕ) (r : Row) (xs : List Archived)
    → AtMost (earliest pull (archived pull r ∷ xs)) r.occurred_day
unfolding earliest
AtMost-head pull r xs = elim (Option-cases (earliest pull xs)) [
  | inl p ↦ rw ((nat_eq_iff pull pull).1 refl, p) (omega arith)
  | inr (d, p) ↦ rw ((nat_eq_iff pull pull).1 refl, p) (omega arith)
]

earliest-rows :
    (pull : ℕ) (rows : List Row)
    → All (λ r. AtMost (earliest pull (map (archived pull) rows)) r.occurred_day) rows
earliest-rows pull [] = tt
earliest-rows pull (r ∷ rows) =
    (AtMost-head pull r (map (archived pull) rows), All-map rows (earliest-rows pull rows))
  where
    All-map :
        (qs : List Row)
        → All (λ q. AtMost (earliest pull (map (archived pull) rows)) q.occurred_day) qs
        → All (λ q. AtMost (earliest pull (map (archived pull) (r ∷ rows))) q.occurred_day) qs
    All-map [] h = tt
    All-map (q ∷ qs) h = (
      AtMost-earlier pull q.occurred_day (archived pull r) (map (archived pull) rows) h.0,
      All-map qs h.1,
    )

Covers-AtMost :
    (pending : Option (Option ℕ)) (from : Option ℕ) (day : ℕ)
    → Covers pending from
    → AtMost from day
    → Covers pending (some day)
Covers-AtMost pending none day c h = absurd h
Covers-AtMost none (some d) day c h = absurd c
Covers-AtMost (some none) (some d) day c h = tt
Covers-AtMost (some (some e)) (some d) day c h = omega arith

marked :
    (db : Database) (pull : ℕ) (a : Assessment)
    → (length (keep (doomed a) db.silver) ≡ 0)
      ⊎ ((delete_absent db pull a).1.marks
          ≡ mark db.marks a.source_id (earliest pull (delete_rows db pull a).archive))
unfolding delete_absent delete_rows
marked db pull a = ground arith

covered :
    (db : Database) (pull : ℕ) (a : Assessment) (rows : List Row)
    → (delete_absent db pull a).1.marks
      ≡ mark db.marks a.source_id (earliest pull (delete_rows db pull a).archive)
    → All (λ r. AtMost (earliest pull (delete_rows db pull a).archive) r.occurred_day) rows
    → All
        (λ r.
          Covers (pending_of (delete_absent db pull a).1.marks a.source_id) (some r.occurred_day))
        rows
covered db pull a [] q h = tt
covered db pull a (r ∷ rows) q h =
    let from = earliest pull (delete_rows db pull a).archive in
    (
      subst (λ m. Covers (pending_of m a.source_id) (some r.occurred_day)) (sym q)
          (Covers-AtMost (pending_of (mark db.marks a.source_id from) a.source_id) from
            r.occurred_day (mark-Covers db.marks a.source_id from) h.0),
      covered db pull a rows q h.1,
    )

late_enough :
    (db : Database) (pull : ℕ) (a : Assessment) (rows : List Row)
    → All
        (λ r.
          AtMost (earliest pull (map (archived pull) (keep (doomed a) db.silver))) r.occurred_day)
        rows
    → All (λ r. AtMost (earliest pull (delete_rows db pull a).archive) r.occurred_day) rows
unfolding delete_rows
late_enough db pull a [] h = tt
late_enough db pull a (r ∷ rows) h = (
  AtMost-append pull r.occurred_day db.archive (map (archived pull) (keep (doomed a) db.silver))
      h.0,
  late_enough db pull a rows h.1,
)

none_left {ℓ κ} : {A : Type ℓ} (P : A → Type κ) (xs : List A) → length xs ≡ 0 → All P xs
none_left P [] h = tt
none_left P (x ∷ xs) h = absurd (omega arith)

-- After a deletion, the change that is pending of the city starts no later than the day of any row
-- that was deleted, so that the next gold refresh rebuilds every day that lost one.
pub delete_absent-Covers :
    (db : Database) (pull : ℕ) (a : Assessment)
    → All
        (λ r.
          Covers (pending_of (delete_absent db pull a).1.marks a.source_id) (some r.occurred_day))
        (keep (doomed a) db.silver)
delete_absent-Covers db pull a =
    let gone = keep (doomed a) db.silver in
    elim (marked db pull a) [
      | inl p ↦ none_left _ gone p
      | inr q ↦ covered db pull a gone q (late_enough db pull a gone (earliest-rows pull gone))
    ]
