-- ===== src/Etl/CatchUp/Covered.antt =====
-- safety/etl/run.py, `history_covered_from`: what one more pull makes of the date covered.
use crime_prevention_and_per.Prelude.{
  if◌then◌else◌, String, ◌≡◌, refl, Bool, true, false, Option, none, some, List, [], ◌∷◌, ◌++◌,
  arith,
}
use crime_prevention_and_per.Etl.History.{Instant, is_before}
use crime_prevention_and_per.Etl.CatchUp.{HistoryPull, is_load, earliest_of, history_covered_from}

-- A time is before all that is covered.
abbrev pub is_beyond : Instant → Option Instant → Bool
is_beyond t none = true
is_beyond t (some covered) = is_before t covered

beyond_parts :
    (t : Instant) (a b : Option Instant)
    → is_beyond t (earliest_of a b) ≡ true
    → (is_beyond t a ≡ true) × (is_beyond t b ≡ true)
unfolding is_before
beyond_parts t none b h = (refl, h)
beyond_parts t (some w) none h = (h, refl)
beyond_parts t (some w) (some c) h = (ground arith, ground arith)

earliest_of-beyond :
    (t : Instant) (a : Option Instant) → is_beyond t a ≡ true → earliest_of a (some t) ≡ some t
earliest_of-beyond t none h = refl
earliest_of-beyond t (some w) h = ground arith

further :
    (t : Instant) (counts : Bool) (w rest longer : Option Instant)
    → is_beyond t (if counts then earliest_of w rest else rest) ≡ true
    → (is_beyond t rest ≡ true → longer ≡ some t)
    → (if counts then earliest_of w longer else longer) ≡ some t
further t true w rest longer h k =
    let parts = beyond_parts t w rest h in rw (k parts.1) (earliest_of-beyond t w parts.0)
further t false w rest longer h k = k h

module _ (source_id : String) (dataset : Option String) (exclude : List String)
    (p : HistoryPull) where
  abbrev covered : List HistoryPull → Option Instant
  covered pulls = history_covered_from source_id dataset exclude pulls

  -- A pull that does not count leaves it.
  pub covered_same :
      (pulls : List HistoryPull)
      → is_load source_id dataset exclude p ≡ false
      → covered (pulls ++ p ∷ []) ≡ covered pulls
  unfolding history_covered_from
  covered_same [] h = ground arith
  covered_same (q ∷ pulls) h = rw (covered_same pulls h) refl

  -- A completed pull that begins before all that is covered moves it to where it begins.
  pub covered_further :
      (pulls : List HistoryPull) (t : Instant)
      → is_load source_id dataset exclude p ≡ true
      → p.window_start ≡ some t
      → is_beyond t (covered pulls) ≡ true
      → covered (pulls ++ p ∷ []) ≡ some t
  unfolding history_covered_from
  covered_further [] t counts starts h = rw (counts, starts) refl
  covered_further (q ∷ pulls) t counts starts h =
      further t (is_load source_id dataset exclude q) q.window_start (covered pulls) _ h
        (covered_further pulls t counts starts)
