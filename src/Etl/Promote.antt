-- ===== src/Etl/Promote.antt =====
-- safety/etl/transform.py: staged records and their promotion into silver.
-- A local date is its day number. The copied columns that nothing here reads are one text. What
-- PostgreSQL does is a parameter: `year_of` is EXTRACT(YEAR ...), `text_key` is upper(btrim(...)).
-- The rows of one statement are taken in order; a pull's records have distinct keys.
pub mod Applicable
pub mod Changes
pub mod Crosswalk
pub mod Once
pub mod Rows
pub mod Stale
use crime_prevention_and_per.Prelude.{
  ltb, leb, nat_eq, if◌then◌else◌, length, keep, any, String_eq, ◌==◌, ℕ, min, String, Bool, true,
  false, not, ◌&&◌, ◌||◌, Option, none, some, List, [], ◌∷◌, ◌++◌, map,
}
use crime_prevention_and_per.Prelude.Sorting.{sorted}
use crime_prevention_and_per.Etl.Pending.{Marks, mark}

-- a row of etl.staging_incident
pub record Staged : Type 0 where
  pub pull_id : ℕ
  pub source_id : String
  pub incident_key : String
  pub local_date : ℕ
  pub raw_offense_code : Option String
  pub raw_offense_text : Option String
  pub columns : String

-- the classification columns of a crosswalk row
pub record Mapping : Type 0 where
  pub nibrs_code : Option String
  pub severity_bucket : String
  pub product_category : String
  pub mapping_confidence : String

pub record CrosswalkRow : Type 0 where
  pub source_id : String
  pub crosswalk_version : String
  pub raw_offense_code : String
  pub raw_offense_text_key : String
  pub effective_from : ℕ
  pub effective_to : Option ℕ
  pub mapping : Mapping

-- a row of silver.incident: the staged columns, the year of its key, and the classification
pub record Stored : Type 0 where
  pub incident : Staged
  pub occurred_year : ℕ
  pub mapping : Mapping
  pub crosswalk_version : String

-- COALESCE: an unmapped code is flagged
abbrev pub unmapped : Mapping
unmapped = record {
  nibrs_code = none;
  severity_bucket = "unknown";
  product_category = "other";
  mapping_confidence = "unmapped";
}

abbrev pub is_some_eq : Option String → String → Bool
is_some_eq none t = false
is_some_eq (some s) t = s == t

abbrev pub option_same : Option String → Option String → Bool
option_same none none = true
option_same (some s) (some t) = s == t
option_same none (some t) = false
option_same (some s) none = false

module _ (text_key : String → String) (version : String) where
  abbrev pub key_of : Option String → Option String
  key_of none = none
  key_of (some text) = some (text_key text)

  -- the WHERE of the lateral join
  unfoldable pub is_match : Staged → CrosswalkRow → Bool
  is_match s c =
      c.source_id == s.source_id
      && c.crosswalk_version == version
      && is_some_eq s.raw_offense_code c.raw_offense_code
      && (is_some_eq (key_of s.raw_offense_text) c.raw_offense_text_key
          || c.raw_offense_text_key == "*")
      && leb c.effective_from s.local_date
      && elim c.effective_to [ none ↦ true | some to ↦ ltb s.local_date to ]

  -- ORDER BY: an exact text before `*`, then the latest
  abbrev pub ranks_before : CrosswalkRow → CrosswalkRow → Bool
  ranks_before a b =
      if a.raw_offense_text_key == "*"
      then b.raw_offense_text_key == "*" && leb b.effective_from a.effective_from
      else b.raw_offense_text_key == "*" || leb b.effective_from a.effective_from

  abbrev pub first_of : List CrosswalkRow → Option CrosswalkRow
  first_of [] = none
  first_of (c ∷ _) = some c

  unfoldable pub crosswalk_of : List CrosswalkRow → Staged → Option CrosswalkRow
  unfolding is_match sorted
  crosswalk_of crosswalk s = first_of (sorted ranks_before (keep (is_match s) crosswalk))

abbrev pub mapping_of : Option CrosswalkRow → Mapping
mapping_of none = unmapped
mapping_of (some c) = c.mapping

abbrev pub same_key : Staged → Staged → Bool
same_key a b = a.source_id == b.source_id && a.incident_key == b.incident_key

-- the primary key: source, year and incident key
abbrev pub same_row : Stored → Stored → Bool
same_row a b = same_key a.incident b.incident && nat_eq a.occurred_year b.occurred_year

-- `ON CONFLICT ... DO UPDATE` of one row
unfoldable pub upsert : Stored → List Stored → List Stored
upsert r [] = r ∷ []
upsert r (i ∷ silver) = if same_row i r then r ∷ silver else i ∷ upsert r silver

unfoldable pub upsert_all : List Stored → List Stored → List Stored
unfolding upsert
upsert_all [] silver = silver
upsert_all (r ∷ rows) silver = upsert_all rows (upsert r silver)

module _ (year_of : ℕ → ℕ) where
  abbrev pub stored_of : String → Option CrosswalkRow → Staged → Stored
  stored_of version c s = record {
    incident = s;
    occurred_year = year_of s.local_date;
    mapping = mapping_of c;
    crosswalk_version = version;
  }

  -- `_DEDUPE_ACROSS_YEARS_SQL`
  abbrev pub is_stale : List Staged → Stored → Bool
  is_stale staged i =
      any (λ s. same_key i.incident s && not (nat_eq i.occurred_year (year_of s.local_date))) staged

  unfoldable pub dedupe_across_years : List Staged → List Stored → List Stored
  dedupe_across_years staged silver = keep (λ i. not (is_stale staged i)) silver

-- the row comparison of `_CHANGES_SQL`, over every copied column but the pull and the key
abbrev pub differs : String → Staged → Stored → Bool
differs version s i = not (
    nat_eq s.local_date i.incident.local_date
    && option_same s.raw_offense_code i.incident.raw_offense_code
    && option_same s.raw_offense_text i.incident.raw_offense_text
    && s.columns == i.incident.columns
    && version == i.crosswalk_version)

abbrev pub earlier_of : Option ℕ → ℕ → Option ℕ
earlier_of none day = some day
earlier_of (some old) day = some (min old day)

-- a joined row of `_CHANGES_SQL`
abbrev pub is_changed : String → Staged → Stored → Bool
is_changed version s i = same_key s i.incident && differs version s i

unfoldable pub join_one : String → Staged → Stored → Option ℕ → Option ℕ
join_one version s i from =
    if is_changed version s i
    then earlier_of from (min s.local_date i.incident.local_date)
    else from

-- `_CHANGES_SQL` for a staged row that has rows in silver
unfoldable pub joined_changes : String → Staged → List Stored → Option ℕ → Option ℕ
unfolding join_one
joined_changes version s [] from = from
joined_changes version s (i ∷ silver) from =
    joined_changes version s silver (join_one version s i from)

abbrev pub is_known : Staged → List Stored → Bool
is_known s silver = any (λ i. same_key s i.incident) silver

-- and for one that may have none: the left join
unfoldable pub left_join : String → Staged → List Stored → Option ℕ → Option ℕ
unfolding joined_changes
left_join version s silver from =
    if is_known s silver then joined_changes version s silver from else earlier_of from s.local_date

-- `dirty_from` over the staged rows; none is no change at all
unfoldable pub changes : String → List Staged → List Stored → Option ℕ → Option ℕ
unfolding left_join
changes version [] silver from = from
changes version (s ∷ staged) silver from =
    changes version staged silver (left_join version s silver from)

-- the tables that a promotion reads and writes
pub record Warehouse : Type 0 where
  pub staging : List Staged
  pub silver : List Stored
  pub marks : Marks

module _ (text_key : String → String) (year_of : ℕ → ℕ) (crosswalk : List CrosswalkRow) where
  abbrev pub of_pull : ℕ → List Staged → List Staged
  of_pull pull staging = keep (λ s. nat_eq s.pull_id pull) staging

  abbrev pub promoted_rows : String → List Staged → List Stored
  promoted_rows version staged =
      map (λ s. stored_of year_of version (crosswalk_of text_key version crosswalk s) s) staged

  abbrev pub mark_changed : Option ℕ → String → Marks → Marks
  mark_changed none source_id marks = marks
  mark_changed (some from) source_id marks = mark marks source_id (some from)

  -- `promote_to_silver`; without staged rows it does nothing
  unfoldable pub promote_to_silver : ℕ → String → String → Warehouse → Warehouse × ℕ
  unfolding upsert_all dedupe_across_years changes crosswalk_of
  promote_to_silver pull source_id version db =
      let staged = of_pull pull db.staging in
      (
        record db {
          silver =
              dedupe_across_years year_of staged
                (upsert_all (promoted_rows version staged) db.silver);
          marks = mark_changed (changes version staged db.silver none) source_id db.marks;
        },
        length staged,
      )

-- `stage_records`: what an earlier try of the pull staged is deleted
unfoldable pub stage_records : ℕ → List Staged → Warehouse → Warehouse
stage_records pull records db = record db {
  staging = keep (λ s. not (nat_eq s.pull_id pull)) db.staging ++ records;
}

-- `clear_staging`
unfoldable pub clear_staging : ℕ → Warehouse → Warehouse
clear_staging pull db = record db { staging = keep (λ s. not (nat_eq s.pull_id pull)) db.staging }
