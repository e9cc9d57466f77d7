-- ===== src/Etl/Tests/Schedules.antt =====
-- The theorem on who is pulled at concrete inputs.
use crime_prevention_and_per.Prelude.{
  any, String_eq, ◌==◌, elem, ◌*◌, ◌≡◌, refl, true, not, ◌&&◌, ◌||◌, some, List, [], ◌∷◌,
}
use crime_prevention_and_per.Prelude.Int.{◌-ℤ◌}
use crime_prevention_and_per.Prelude.Sorting.{sorted}
use crime_prevention_and_per.Etl.Schedule.{
  day_us, threshold, is_due, incremental, succeeded, failed, Pull, last_checked_at, Source,
  enabled_sources,
}
use crime_prevention_and_per.Etl.Schedule.Due.{may_publish, enabled_sources_lem}

-- sea was pulled four days ago, and failed since; nyc two days ago
abbrev looks : List Pull
looks =
    record { source_id = "sea"; mode = incremental; status = succeeded; started_at = 6 * day_us }
    ∷ record { source_id = "sea"; mode = incremental; status = failed; started_at = 9 * day_us }
    ∷ record { source_id = "nyc"; mode = incremental; status = succeeded; started_at = 8 * day_us }
    ∷ []

abbrev registry : List Source
registry =
    record { source_id = "nyc"; expected_cadence = some "weekly"; enabled = true }
    ∷ record { source_id = "sea"; expected_cadence = some "daily"; enabled = true }
    ∷ []

only_sea : enabled_sources (10 * day_us) looks registry true ≡ "sea" ∷ []
unfolding enabled_sources is_due last_checked_at sorted threshold ◌-ℤ◌
only_sea = refl

enabled_sources_lem_example :
    elem "sea" (enabled_sources (10 * day_us) looks registry true)
    ≡ any
        (λ r. r.source_id == "sea" && (not true || may_publish (10 * day_us) looks r) && r.enabled)
        registry
enabled_sources_lem_example = enabled_sources_lem (10 * day_us) looks registry true "sea"
