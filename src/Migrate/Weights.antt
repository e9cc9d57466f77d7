-- ===== src/Migrate/Weights.antt =====
-- safety/migrate.py, `copy_inherited_weights`: a scheme's weights, copied from the scheme that it
-- names. A weight's key is its scheme and then what the table keys it by within one; `weight` is
-- the rest of the row. A row of schemes.csv is a scheme and the one that it inherits from, if any.
pub mod Inherited
use crime_prevention_and_per.Prelude.{
  if◌then◌else◌, Hashable, pair_eq, String_eq, ◌==◌, String, List, [], ◌∷◌,
}
use crime_prevention_and_per.OrderedDict.{put, Dict}

module _ {ℓ} {K W : Type ℓ} ⦃e : Hashable K⦄ where
  -- the rows that the statement selects, under the child's name
  unfoldable pub selected : String → String → Dict (String × K) W → Dict (String × K) W
  selected child parent [] = []
  selected child parent (((version, key), weight) ∷ rows) =
      let rest = selected child parent rows in
      if version == parent then ((child, key), weight) ∷ rest else rest

  -- `INSERT ... ON CONFLICT DO UPDATE`, a row at a time
  unfoldable pub upsert : Dict (String × K) W → Dict (String × K) W → Dict (String × K) W
  unfolding put
  upsert [] weights = weights
  upsert ((key, weight) ∷ rows) weights = upsert rows (put key weight weights)

  -- `copy_inherited_weights`; an inheritor of nothing is skipped
  unfoldable pub copy_inherited_weights :
      List (String × String) → Dict (String × K) W → Dict (String × K) W
  unfolding selected upsert
  copy_inherited_weights [] weights = weights
  copy_inherited_weights ((child, parent) ∷ rows) weights =
      copy_inherited_weights rows
        (if parent == "" then weights else upsert (selected child parent weights) weights)
