-- ===== src/Etl/History/Slices.antt =====
-- safety/etl/run.py, `history_slices`: the slices leave no gap, and end at the floor.
use crime_prevention_and_per.Prelude.{
  Bool-cases, ℕ, zero, suc, ◌+◌, ◌-◌, ◌*◌, ◌/◌, ◌%◌, ◌≤◌, ◌<◌, ◌≡◌, refl, ap, ◌⊎◌, inl, inr, true,
  false, Option, none, some, List, [], ◌∷◌, arith,
}
use crime_prevention_and_per.Etl.Windows.{Date, months_before, ordinal}
use crime_prevention_and_per.Etl.Windows.Days.{
  month_index, months_before-eq-month_at, months_before-bounds,
}
use crime_prevention_and_per.Etl.History.{
  Instant, midnight, next_day, previous_day, day_after, is_before, slice_since, history_slices,
}
use crime_prevention_and_per.Etl.History.Days.{
  IsDay, ordinal-next_day, next_day-IsDay, month_index-bound, previous_day-first,
}

-- the day before the months that a slice takes begin
abbrev months_start : Date → ℕ → Date
months_start d n = previous_day (months_before (next_day d) n)

-- What a slice before `cursor` is: it begins before it, not before the floor, and at most 31 days for
-- each of its months and 30 more earlier.
abbrev pub Extends : Date → ℕ → Instant → Instant → Type 0
Extends floor slice_months cursor since =
    (is_before since cursor ≡ true)
    × (is_before since (midnight floor) ≡ false)
    × (ordinal cursor.date ≤ ordinal since.date + 31 * slice_months + 30)

module _ (floor : Date) (slice_months : ℕ) (vf : IsDay floor) (some_months : 1 ≤ slice_months)
    (room : 31 * (slice_months + 2) ≤ ordinal floor) where
  module _ (cursor : Instant) (vc : IsDay cursor.date)
      (not_past : ordinal floor ≤ ordinal cursor.date) where
    months_start-bounds :
        (suc (ordinal (months_start cursor.date slice_months)) ≤ ordinal cursor.date)
        × (ordinal cursor.date
            ≤ ordinal (months_start cursor.date slice_months) + 31 * slice_months + 30)
        × IsDay (months_start cursor.date slice_months)
    months_start-bounds =
        let next = next_day cursor.date in
        let vn = next_day-IsDay cursor.date vc in
        let day = ordinal-next_day cursor.date vc in
        let far = month_index-bound next vn in
        let k = month_index next - slice_months in
        let before = months_before-bounds next vn.date slice_months (omega (arith, day, far)) in
        let first =
          months_before-eq-month_at next vn.date slice_months
            (omega (arith, far, vn.date.to_december)) in
        let start =
          previous_day-first (k / 12) (k % 12 + 1) (omega arith) (omega arith)
            (omega (arith, day, far)) in
        rw first (
          omega (arith, start.0, before.0, day, ap ordinal first),
          omega (arith, start.0, before.1, day, ap ordinal first),
          start.1,
        )

is_before_day : (a b : Instant) → ordinal a.date < ordinal b.date → is_before a b ≡ true
unfolding is_before
is_before_day a b h = ground arith

before_dates :
    (a b : Instant)
    → is_before a b ≡ true
    → (ordinal a.date ≤ ordinal b.date) × (is_before b a ≡ false)
unfolding is_before
before_dates a b h = (ground arith, ground arith)

not_before_date : (a b : Instant) → is_before a b ≡ false → ordinal b.date ≤ ordinal a.date
unfolding is_before
not_before_date a b h = ground arith

not_before_self : (t : Instant) → is_before t t ≡ false
unfolding is_before
not_before_self t = ground arith

module _ (floor : Date) (slice_months : ℕ) where
  -- Slice after slice, each ends a day after the one before it begins, and the last begins at the
  -- floor.
  abbrev pub Walks : Instant → List (Instant × Instant) → Type 0
  Walks cursor [] = is_before (midnight floor) cursor ≡ false
  Walks cursor ((since, until) ∷ slices) =
      (until ≡ day_after cursor) × Extends floor slice_months cursor since × Walks since slices

  -- The slices that are loaded before the fuel ends, and how they lie.
  abbrev pub Loads : Instant → Option (List (Instant × Instant)) → Type 0
  Loads cursor none = ⊥
  Loads cursor (some slices) = Walks cursor slices

  Loads-one :
      (cursor since : Instant) (rest : Option (List (Instant × Instant)))
      → Extends floor slice_months cursor since
      → Loads since rest
      → Loads cursor
          (elim rest [ none ↦ none | some slices ↦ some ((since, day_after cursor) ∷ slices) ])
  Loads-one cursor since none one h = absurd h
  Loads-one cursor since (some slices) one h = (refl, one, h)

module _ (floor : Date) (slice_months : ℕ) (vf : IsDay floor) (some_months : 1 ≤ slice_months)
    (room : 31 * (slice_months + 2) ≤ ordinal floor) where
  abbrev Slice : Instant → Instant → Type 0
  Slice cursor since =
      Extends floor slice_months cursor since
      × IsDay since.date
      × ((suc (ordinal since.date) ≤ ordinal cursor.date) ⊎ (since ≡ midnight floor))

  slice_since-Slice :
      (cursor : Instant)
      → IsDay cursor.date
      → is_before (midnight floor) cursor ≡ true
      → Slice cursor (slice_since floor slice_months cursor)
  unfolding slice_since
  slice_since-Slice cursor vc ahead =
      let reached : ordinal floor ≤ ordinal cursor.date =
        (before_dates (midnight floor) cursor ahead).0 in
      let bounds = months_start-bounds floor slice_months vf some_months room cursor vc reached in
      let start = midnight (months_start cursor.date slice_months) in
      elim (Bool-cases (is_before (midnight floor) start)) [
        | inl after ↦
            let backwards = (before_dates (midnight floor) start after).1 in
            rw after
              ((is_before_day start cursor bounds.0, backwards, bounds.1), bounds.2, inl bounds.0)
        | inr at ↦
            let clamped = not_before_date (midnight floor) start at in
            rw at (
              (ahead, not_before_self (midnight floor), omega (arith, bounds.1, clamped)),
              vf,
              inr refl,
            )
      ]

  still_enough :
      (fuel : ℕ) (cursor since : Instant)
      → ((suc (ordinal since.date) ≤ ordinal cursor.date) ⊎ (since ≡ midnight floor))
      → suc (ordinal cursor.date) < ordinal floor + suc fuel
      → is_before (midnight floor) since ≡ true
      → suc (ordinal since.date) < ordinal floor + fuel
  still_enough fuel cursor since (inl earlier) h ahead = omega (arith, earlier, h)
  still_enough fuel cursor since (inr clamped) h ahead =
      absurd (cc (ap (is_before (midnight floor)) clamped, not_before_self (midnight floor), ahead))

  history_slices-Loads :
      (fuel : ℕ) (cursor : Instant)
      → IsDay cursor.date
      → 1 ≤ fuel
      → (is_before (midnight floor) cursor ≡ true
          → suc (ordinal cursor.date) < ordinal floor + fuel)
      → Loads floor slice_months cursor (history_slices fuel cursor floor slice_months)
  unfolding history_slices
  history_slices-Loads zero cursor vc some_fuel enough = absurd (omega arith)
  history_slices-Loads (suc fuel) cursor vc some_fuel enough =
      elim (Bool-cases (is_before (midnight floor) cursor)) [
        | inl ahead ↦
            let slice = slice_since-Slice cursor vc ahead in
            let since = slice_since floor slice_months cursor in
            let reached = (before_dates (midnight floor) cursor ahead).0 in
            let ih =
              history_slices-Loads fuel since slice.1 (omega (arith, enough ahead, reached))
                (still_enough fuel cursor since slice.2 (enough ahead)) in
            rw ahead (Loads-one floor slice_months cursor since _ slice.0 ih)
        | inr there ↦ rw there there
      ]

  -- The walk back ends, with as many rounds as days to the floor and two more. Its slices leave no
  -- gap: each ends a day after the one before it begins, the first a day after the cursor, each
  -- begins earlier than the one before it, by at most 31 days for each of its months and 30 more, none
  -- before the floor, and the last at it; a cursor at the floor has none. Dates are from the year 1
  -- on, a slice has a month at least, and the floor is late enough to be gone back to.
  pub history_slices_lem :
      (fuel : ℕ) (cursor : Instant)
      → IsDay cursor.date
      → ordinal cursor.date + 2 ≤ ordinal floor + fuel
      → 1 ≤ fuel
      → Loads floor slice_months cursor (history_slices fuel cursor floor slice_months)
  history_slices_lem fuel cursor vc enough some_fuel =
      history_slices-Loads fuel cursor vc some_fuel (λ ahead. omega (arith, enough))
