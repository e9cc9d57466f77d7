-- ===== src/Etl/Tests/Pulls.antt =====
-- The theorems on a pull's checks at concrete inputs.
use crime_prevention_and_per.Prelude.{
  length, keep, String_eq, ℕ, ◌+◌, String, ◌≡◌, refl, Option, none, some, List, [], ◌∷◌,
}
use crime_prevention_and_per.Prelude.Int.{ℤ, pos, negsuc}
use crime_prevention_and_per.OrderedDict.{lookup, put}
use crime_prevention_and_per.Etl.Validate.{Incident, epoch_floor, reject_reason, check_one}
use crime_prevention_and_per.Etl.Validate.Result.{validate_records}
use crime_prevention_and_per.Etl.Validate.Accepted.{usable, firsts, validate_records-accepted}

abbrev at : String → ℕ → Option ℤ → Incident
at id time lat = record {
  source_incident_id = id;
  occurred_at = time;
  latitude = lat;
  longitude = some (negsuc 122_000_000);
  coordinate_source = "published_wgs84";
}

-- A good record, its duplicate, and one with no place.
abbrev pub pull : List Incident
pull =
    at "1" (epoch_floor + 50) (some (pos 47_000_000))
    ∷ at "1" (epoch_floor + 60) (some (pos 47_000_000))
    ∷ at "2" (epoch_floor + 70) none
    ∷ []

abbrev pub now : ℕ
now = epoch_floor + 1000

validate_records-accepted_example :
    let result = validate_records now none [] none pull in
    (result.accepted ≡ firsts [] (keep (usable now none) pull))
    × (result.rejected + length (keep (usable now none) pull) ≡ length pull)
validate_records-accepted_example = validate_records-accepted now none [] none pull

one_is_accepted : length (validate_records now none [] none pull).accepted ≡ 1
unfolding validate_records lookup put reject_reason check_one
one_is_accepted = refl
