-- ===== src/Migrate/Schemes/Serving.antt =====
-- safety/migrate.py, `_run`: which gold rows a run reclaims.
use crime_prevention_and_per.Prelude.{
  if◌then◌else◌, keep, any, String_eq, ◌==◌, String, ◌≡◌, Bool, true, false, not, ◌||◌, Option,
  none, some, [],
}
use crime_prevention_and_per.OrderedDict.{lookup, Dict, IsDistinct}
use crime_prevention_and_per.Migrate.Schemes.{
  City, Reference, Activation, lookup_error, value_error, activated, SchemeRun,
}

abbrev serves : String → City → Bool
serves version c = elim c.scheme_version [ none ↦ false | some v ↦ v == version ]

abbrev is_disabled : Option Bool → Bool
is_disabled none = false
is_disabled (some enabled) = not enabled

-- Is a version served by a city, enabled, or no version of the table?
abbrev pub is_wanted : Reference → String → Bool
is_wanted db version =
    any (serves version) db.registry || not (is_disabled (lookup version db.schemes))

-- The rows of a version in both tables, before and after.
abbrev pub Reclaims : Reference → Reference → String → Bool → Type 0
Reclaims after before version wanted =
    (keep (λ r. r == version) after.cell_hour_safety
      ≡ (if wanted then keep (λ r. r == version) before.cell_hour_safety else []))
    × (keep (λ r. r == version) after.cell_safety
        ≡ (if wanted then keep (λ r. r == version) before.cell_safety else []))

-- The steps before the pruning leave the rows alone, and no version stands twice.
abbrev IsUntouched : Reference → Reference → Type 0
IsUntouched after before =
    IsDistinct after.schemes
    × (after.cell_hour_safety ≡ before.cell_hour_safety)
    × (after.cell_safety ≡ before.cell_safety)

abbrev KeepsSchemes : Reference → Reference → Type 0
KeepsSchemes after before = after.schemes ≡ before.schemes

-- What an activation does, by the scheme's row.
abbrev Activates : Reference → Option Bool → Activation → Type 0
Activates before (some true) (activated db) = IsUntouched db before
Activates before (some false) value_error = Unit
Activates before none lookup_error = Unit
Activates before row a = ⊥

-- Is an activation asked for whose scheme the table does not have, or has disabled?
abbrev pub is_refused : Dict String Bool → Option (String × Option String) → Bool
is_refused schemes activation = elim activation [
  | none ↦ false
  | some (v, city) ↦ elim (lookup v schemes) [ none ↦ true | some enabled ↦ not enabled ]
]

abbrev Ends : Bool → Bool → Reference → String → SchemeRun → Type 0
Ends refused later before version r =
    Reclaims r.db before version (refused || is_wanted r.db version) × (r.raised ≡ refused || later)
