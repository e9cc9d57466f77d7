-- ===== src/Migrate/Hours/Filled.antt =====
-- safety/migrate.py, `_backfill_hour_for_source`: the loop ends, and what it has filled by then.
use crime_prevention_and_per.Prelude.{
  if◌then◌else◌, length, length-keep-le, ℕ, zero, suc, ◌+◌, ◌<◌, ◌≡◌, refl, ◌⊎◌, inl, inr, Bool,
  some, List, [], ◌∷◌, map, arith,
}
use crime_prevention_and_per.Migrate.Hours.{
  SilverRow, count_if, Audit, nothing_to_do, no_time_of_day, not_local, fills, audit, is_due,
  filled, fill_batch, fill_all, backfill_on, backfill_hour,
}

-- What the backfill owes a row: the hour of its time, if it has none and the time counts.
abbrev pub fill : Bool → SilverRow → SilverRow
fill skip r = if is_due skip r then filled r else r

fill-filled : (skip : Bool) (r : SilverRow) → fill skip (filled r) ≡ filled r
fill-filled skip r = refl

-- A statement that fills part of the rows leaves their sum of owed and filled hours as it was.
map-fill_batch :
    (skip : Bool) (batch : ℕ) (rows : List SilverRow)
    → map (fill skip) (fill_batch skip batch rows).0 ≡ map (fill skip) rows
unfolding fill_batch
map-fill_batch skip batch [] = refl
map-fill_batch skip zero (r ∷ rows) = ground (arith, map-fill_batch skip 0 rows)
map-fill_batch skip (suc n) (r ∷ rows) =
    ground (arith, map-fill_batch skip n rows, map-fill_batch skip (suc n) rows)

count-fill_batch :
    (skip : Bool) (batch : ℕ) (rows : List SilverRow)
    → count_if (is_due skip) (fill_batch skip batch rows).0 + batch
      ≡ count_if (is_due skip) rows + (fill_batch skip batch rows).1
unfolding fill_batch
count-fill_batch skip batch [] = omega arith
count-fill_batch skip zero (r ∷ rows) = ground (arith, count-fill_batch skip 0 rows)
count-fill_batch skip (suc n) (r ∷ rows) =
    ground (arith, count-fill_batch skip n rows, count-fill_batch skip (suc n) rows)

fill_batch_none : (skip : Bool) (rows : List SilverRow) → (fill_batch skip 0 rows).1 ≡ 0
unfolding fill_batch
fill_batch_none skip [] = refl
fill_batch_none skip (r ∷ rows) = ground (arith, fill_batch_none skip rows)

-- It fills its whole batch or all rows that are due.
fill_batch_full :
    (skip : Bool) (batch : ℕ) (rows : List SilverRow)
    → ((fill_batch skip batch rows).1 ≡ 0)
      ⊎ (count_if (is_due skip) (fill_batch skip batch rows).0 ≡ 0)
unfolding fill_batch
fill_batch_full skip batch [] = inr refl
fill_batch_full skip zero (r ∷ rows) = inl (fill_batch_none skip (r ∷ rows))
fill_batch_full skip (suc n) (r ∷ rows) =
    ground (arith, fill_batch_full skip n rows, fill_batch_full skip (suc n) rows)

none_due :
    (skip : Bool) (rows : List SilverRow)
    → count_if (is_due skip) rows ≡ 0
    → map (fill skip) rows ≡ rows
none_due skip [] h = refl
none_due skip (r ∷ rows) h = ground (arith, none_due skip rows)

fill_all_lem :
    (skip : Bool) (n fuel : ℕ) (rows : List SilverRow)
    → count_if (is_due skip) rows < fuel
    → fill_all skip (suc n) fuel rows ≡ some (map (fill skip) rows, count_if (is_due skip) rows)
unfolding fill_all
fill_all_lem skip n zero rows h = absurd (omega arith)
fill_all_lem skip n (suc fuel) rows h =
    let rows' = (fill_batch skip (suc n) rows).0 in
    ground (
      arith,
      map-fill_batch skip (suc n) rows,
      count-fill_batch skip (suc n) rows,
      fill_batch_full skip (suc n) rows,
      none_due skip rows',
      fill_all_lem skip n fuel rows',
    )

-- What the audit's verdict makes of the rows.
abbrev pub backfilled : Audit → List SilverRow → List SilverRow × ℕ
backfilled nothing_to_do rows = (rows, 0)
backfilled no_time_of_day rows = (rows, 0)
backfilled not_local rows = (rows, 0)
backfilled (fills skip) rows = (map (fill skip) rows, count_if (is_due skip) rows)

backfill_on_lem :
    (a : Audit) (fuel : ℕ) (rows : List SilverRow)
    → length rows < fuel
    → backfill_on a fuel rows ≡ some (backfilled a rows)
unfolding backfill_on
backfill_on_lem nothing_to_do fuel rows h = refl
backfill_on_lem no_time_of_day fuel rows h = refl
backfill_on_lem not_local fuel rows h = refl
backfill_on_lem (fills skip) fuel rows h =
    fill_all_lem skip 49_999 fuel rows (omega (arith, length-keep-le (is_due skip) rows))

-- With one round more than there are rows the backfill ends. It gives every row that it may touch
-- the hour of its own time and leaves all others as they were, where the audit finds the times to
-- be local clock times, and otherwise leaves every row; it says how many rows it filled.
pub backfill_hour_lem :
    (fuel : ℕ) (rows : List SilverRow)
    → length rows < fuel
    → backfill_hour fuel rows ≡ some (backfilled (audit rows) rows)
unfolding backfill_hour
backfill_hour_lem fuel rows h = backfill_on_lem (audit rows) fuel rows h
