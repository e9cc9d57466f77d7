-- ===== src/Migrate/Schemes.antt =====
-- safety/migrate.py: the severity schemes, which of them a city serves, and the rows of the two
-- gold tables that are keyed by scheme. Of a scheme only `enabled` is kept, of a gold row only its
-- scheme.
pub mod Serving
use crime_prevention_and_per.Prelude.{
  if◌then◌else◌, keep, String_eq, ◌==◌, elem, String, Bool, true, false, not, ◌&&◌, ◌||◌, Option,
  none, some, List, [], ◌∷◌, map,
}
use crime_prevention_and_per.OrderedDict.{lookup, put, Dict}

pub record City : Type 0 where
  pub source_id : String
  pub scheme_version : Option String

-- reference.severity_scheme, reference.source_registry, gold.cell_hour_safety and gold.cell_safety
pub record Reference : Type 0 where
  pub schemes : Dict String Bool
  pub registry : List City
  pub cell_hour_safety : List String
  pub cell_safety : List String

-- the upsert of `load_severity_schemes`
unfoldable pub load_schemes : Dict String Bool → Dict String Bool → Dict String Bool
unfolding put
load_schemes [] schemes = schemes
load_schemes ((version, enabled) ∷ rows) schemes = load_schemes rows (put version enabled schemes)

abbrev pub versions_where : Bool → Dict String Bool → List String
versions_where true schemes = map (λ s. s.0) (keep (λ s. s.1) schemes)
versions_where false schemes = map (λ s. s.0) (keep (λ s. not s.1) schemes)

-- the update of `point_sources_at_scheme`
abbrev pub point : String → City → City
point version c = elim c.scheme_version [
  | none ↦ record c { scheme_version = some version }
  | some _ ↦ c
]

-- `point_sources_at_scheme`: only if exactly one scheme is enabled
unfoldable pub point_sources_at_scheme : Reference → Reference
point_sources_at_scheme db = elim (versions_where true db.schemes) [
  | version ∷ [] ↦ record db { registry = map (point version) db.registry }
  | _ ↦ db
]

-- the schemes that a city's map is drawn from
unfoldable pub in_use : List City → List String
in_use [] = []
in_use (c ∷ registry) = elim c.scheme_version [
  | none ↦ in_use registry
  | some version ↦ version ∷ in_use registry
]

abbrev pub is_prunable : Reference → String → Bool
is_prunable db version =
    elem version (versions_where false db.schemes) && not (elem version (in_use db.registry))

-- `prune_disabled_schemes`
unfoldable pub prune_disabled_schemes : Reference → Reference
unfolding in_use
prune_disabled_schemes db = record db {
  cell_hour_safety = keep (λ version. not (is_prunable db version)) db.cell_hour_safety;
  cell_safety = keep (λ version. not (is_prunable db version)) db.cell_safety;
}

pub data Activation : Type 0 where
  lookup_error value_error : Activation
  activated : Reference → Activation

-- an empty city is every city
abbrev pub promote_city : String → Option String → City → City
promote_city version none c = record c { scheme_version = some version }
promote_city version (some source_id) c =
    if source_id == "" || c.source_id == source_id
    then record c { scheme_version = some version }
    else c

-- `activate_scheme`
unfoldable pub activate_scheme : Reference → String → Option String → Activation
unfolding lookup
activate_scheme db version city = elim (lookup version db.schemes) [
  | none ↦ lookup_error
  | some enabled ↦
      if enabled
      then activated (record db { registry = map (promote_city version city) db.registry })
      else value_error
]

-- What `_run` leaves of these tables, and whether it raised.
pub record SchemeRun : Type 0 where
  pub db : Reference
  pub raised : Bool

-- The pruning is committed; the steps after it, a vacuum and the backfills, may still raise.
abbrev pub pruned : Bool → Reference → SchemeRun
pruned later db = record { db = prune_disabled_schemes db; raised = later }

-- the pruning after `--activate`, which may have raised
abbrev pub pruned_if : Bool → Reference → Activation → SchemeRun
pruned_if later db lookup_error = record { db = db; raised = true }
pruned_if later db value_error = record { db = db; raised = true }
pruned_if later db (activated db') = pruned later db'

-- `_run`, as far as schemes go: the loader, the pointers, `--activate`, the pruning, and then
-- steps that leave these tables alone and may raise, if `later` says so
unfoldable pub run_schemes :
    Bool → Dict String Bool → Option (String × Option String) → Reference → SchemeRun
unfolding load_schemes point_sources_at_scheme activate_scheme prune_disabled_schemes
run_schemes later rows activation db =
    let pointed = point_sources_at_scheme (record db { schemes = load_schemes rows db.schemes }) in
    elim activation [
      | none ↦ pruned later pointed
      | some (version, city) ↦ pruned_if later pointed (activate_scheme pointed version city)
    ]
