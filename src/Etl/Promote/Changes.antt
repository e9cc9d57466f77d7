-- ===== src/Etl/Promote/Changes.antt =====
-- safety/etl/transform.py, `_CHANGES_SQL` and the mark: which days a promotion declares changed.
use crime_prevention_and_per.Prelude.{
  all, All, String_eq, ℕ, ◌≤◌, min, String, ◌≡◌, ◌⊎◌, Bool, true, false, not, ◌&&◌, Option, none,
  some, List,
}
use crime_prevention_and_per.Etl.Promote.{Staged, Stored, is_changed, is_known}
use crime_prevention_and_per.Etl.Pending.{Marks}
use crime_prevention_and_per.Etl.Pending.Marks.{Covers}

-- A change that reaches back to a day is declared.
abbrev pub Reaches : Option ℕ → ℕ → Type 0
Reaches none day = ⊥
Reaches (some from) day = from ≤ day

module _ (version : String) where
  -- what a staged record that silver knows declares of a row
  abbrev pub Joins : Option ℕ → Staged → Stored → Type 0
  Joins from s i =
      (is_changed version s i ≡ false) ⊎ Reaches from (min s.local_date i.incident.local_date)

  -- What a staged record declares: its own day if it is new, and for each of its rows that changes
  -- the earlier of the two days.
  abbrev pub Declares : List Stored → Option ℕ → Staged → Type 0
  Declares silver from s =
      ((is_known s silver ≡ true) ⊎ Reaches from s.local_date) × All (Joins from s) silver

  -- Without a change there is none to declare.
  abbrev pub is_as_stored : List Stored → Staged → Bool
  is_as_stored silver s = is_known s silver && all (λ i. not (is_changed version s i)) silver

-- A pending change covers what a staged record changes: its own day if it is new, and for each of
-- its rows that it changes the earlier of the two days.
abbrev pub IsMarked : String → List Stored → Option (Option ℕ) → Staged → Type 0
IsMarked version silver pending s =
    ((is_known s silver ≡ true) ⊎ Covers pending (some s.local_date))
    × All
        (λ i.
          (is_changed version s i ≡ false)
          ⊎ Covers pending (some (min s.local_date i.incident.local_date)))
        silver
