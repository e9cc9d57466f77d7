-- ===== src/Etl/Validate.antt =====
-- safety/etl/validate.py: what is kept out of silver, what is flagged, and what blocks a pull.
-- Coordinates are whole millionths of a degree, times whole seconds since the year 1, the clock's
-- reading an argument. A historical median, which can end in a half, is given doubled. Ratios are
-- compared on whole numbers. Of an issue's detail only the sample of ids is modelled.
-- record_issues and historical_pull_median are an insert and a query.
pub mod Accepted
pub mod Ids
pub mod Issues
pub mod Result
pub mod Volume
use crime_prevention_and_per.Prelude.{
  ltb, leb, nat_eq, if◌then◌else◌, length, String_eq, ◌==◌, elem, ℕ, ◌+◌, ◌*◌, String, Bool, false,
  ◌&&◌, Option, none, some, List, [], ◌∷◌, ◌++◌,
}
use crime_prevention_and_per.Prelude.Int.{ℤ, pos, negsuc, ◌+ℤ◌, ◌-ℤ◌, leb_ℤ}
use crime_prevention_and_per.OrderedDict.{lookup, put, Dict}
use crime_prevention_and_per.OrderedDict.Counting.{add_one}

-- A NormalizedIncident, as far as the checks read it.
pub record Incident : Type 0 where
  pub source_incident_id : String
  pub occurred_at : ℕ
  pub latitude : Option ℤ
  pub longitude : Option ℤ
  pub coordinate_source : String

pub data Severity : Type 0 where
  reject warn block : Severity

pub record ValidationIssue : Type 0 where
  pub check_name : String
  pub severity : Severity
  pub occurrences : ℕ
  pub sample_ids : List String

-- west, south, east, north
pub record BoundingBox : Type 0 where
  pub west : ℤ
  pub south : ℤ
  pub east : ℤ
  pub north : ℤ

-- 1900-01-01 is day 693,595 after 0001-01-01; a quarter of a degree
abbrev pub epoch_floor : ℕ
epoch_floor = 693_595 * 86_400

abbrev pub pad : ℤ
pad = pos 250_000

unfoldable pub within : ℤ → ℤ → BoundingBox → Bool
unfolding ◌-ℤ◌ ◌+ℤ◌
within lat lng box =
    leb_ℤ (box.south -ℤ pad) lat
    && leb_ℤ lat (box.north +ℤ pad)
    && (leb_ℤ (box.west -ℤ pad) lng && leb_ℤ lng (box.east +ℤ pad))

abbrev pub is_zero : ℤ → Bool
is_zero (pos n) = nat_eq n 0
is_zero (negsuc n) = false

-- the coordinate checks of the loop
unfoldable pub location_reason : Option ℤ → Option ℤ → Option BoundingBox → Option String
unfolding within
location_reason none lng bbox = some "missing_coordinates"
location_reason (some lat) none bbox = some "missing_coordinates"
location_reason (some lat) (some lng) bbox =
    if is_zero lat && is_zero lng then some "missing_coordinates" else elim bbox [
      | none ↦ none
      | some box ↦ if within lat lng box then none else some "coordinates_out_of_bounds"
    ]

-- why the loop rejects a record, if it does
unfoldable pub reject_reason : ℕ → Option BoundingBox → Incident → Option String
unfolding location_reason
reject_reason now bbox r =
    if leb r.occurred_at epoch_floor
    then some "missing_timestamp"
    else if ltb (now + 86_400) r.occurred_at
    then some "future_timestamp"
    else location_reason r.latitude r.longitude bbox

-- The loop's variables.
pub record Checked : Type 0 where
  pub rejected_by_check : Dict String ℕ
  pub samples : Dict String (List String)
  pub seen_ids : List String
  pub duplicate_ids : List String
  pub reprojected : Dict String ℕ
  pub accepted : List Incident

abbrev pub nothing_checked : Checked
nothing_checked = record {
  rejected_by_check = [];
  samples = [];
  seen_ids = [];
  duplicate_ids = [];
  reprojected = [];
  accepted = [];
}

-- `samples[reason]`, a defaultdict(list)
abbrev pub samples_of : String → Dict String (List String) → List String
samples_of name d = elim (lookup name d) [ none ↦ [] | some ids ↦ ids ]

unfoldable pub reject_one : String → String → Checked → Checked
reject_one reason id c = record c {
  rejected_by_check = add_one reason c.rejected_by_check;
  samples =
      if ltb (length (samples_of reason c.samples)) 10
      then put reason (samples_of reason c.samples ++ id ∷ []) c.samples
      else c.samples;
}

-- a record that is not rejected: a duplicate, or accepted
unfoldable pub accept_one : Incident → Checked → Checked
accept_one r c =
    if elem r.source_incident_id c.seen_ids
    then record c { duplicate_ids = c.duplicate_ids ++ r.source_incident_id ∷ [] }
    else record c {
      seen_ids = r.source_incident_id ∷ c.seen_ids;
      reprojected =
          if r.coordinate_source == "published_wgs84"
          then c.reprojected
          else add_one r.coordinate_source c.reprojected;
      accepted = c.accepted ++ r ∷ [];
    }

unfoldable pub check_one : ℕ → Option BoundingBox → Incident → Checked → Checked
unfolding reject_one accept_one
check_one now bbox r c = elim (reject_reason now bbox r) [
  | some reason ↦ reject_one reason r.source_incident_id c
  | none ↦ accept_one r c
]

unfoldable pub check_all : ℕ → Option BoundingBox → List Incident → Checked → Checked
check_all now bbox [] c = c
check_all now bbox (r ∷ rs) c = check_all now bbox rs (check_one now bbox r c)
