-- ===== src/Etl/Pending.antt =====
-- safety/etl/pending.py: which cities have silver changes that gold does not show yet. The table
-- etl.gold_pending is a dictionary by city; a mark holds the earliest changed day, or none for
-- "anywhere". Days are day numbers. `marked_at` is not modelled: nothing here reads it.
pub mod Marks
use crime_prevention_and_per.Prelude.{String_eq, ℕ, min, String, Option, none, some}
use crime_prevention_and_per.OrderedDict.{lookup, remove, put, Dict}

abbrev pub Marks : Type 0
Marks = Dict String (Option ℕ)

-- the CASE of `_MARK_SQL`: none wins, else LEAST
unfoldable pub merge : Option ℕ → Option ℕ → Option ℕ
merge none new = none
merge (some old) none = none
merge (some old) (some new) = some (min old new)

-- `mark`: an insert, or the update of the row that is there
unfoldable pub mark : Marks → String → Option ℕ → Marks
unfolding merge
mark m city from = elim (lookup city m) [
  | none ↦ put city from m
  | some old ↦ put city (merge old from) m
]

-- `get`: what is pending of a city
abbrev pub pending_of : Marks → String → Option (Option ℕ)
pending_of m city = lookup city m

-- `clear`, in the gold refresh's transaction
unfoldable pub clear : Marks → String → Marks
clear m city = remove city m
