-- ===== src/Migrate/Weights/Inherited.antt =====
-- safety/migrate.py, `copy_inherited_weights`: when a scheme has the weights of the one it inherits
-- from.
use crime_prevention_and_per.Prelude.{
  if◌then◌else◌, All, Hashable, pair_same_iff, pair_eq, String_eq, ◌==◌, String, ◌≡◌, refl, sym, ap,
  ◌∙◌, false, none, some, List, [], ◌∷◌, ◌++◌, arith, eq_iff,
}
use crime_prevention_and_per.OrderedDict.{lookup-put, IsDistinct-put, lookup, put, Dict, IsDistinct}
use crime_prevention_and_per.Migrate.Weights.{selected, upsert, copy_inherited_weights}

module _ {ℓ} {K W : Type ℓ} ⦃e : Hashable K⦄ where
  lookup-selected :
      (child parent v : String) (k : K) (rows : Dict (String × K) W)
      → lookup (v, k) (selected child parent rows)
        ≡ (if child == v then lookup (parent, k) rows else none)
  unfolding lookup selected
  lookup-selected child parent v k [] = ground arith
  lookup-selected child parent v k (((u, key), x) ∷ rows) =
      ground (arith, lookup-selected child parent v k rows)

  IsDistinct-selected :
      (child parent : String) (rows : Dict (String × K) W)
      → IsDistinct rows
      → IsDistinct (selected child parent rows)
  unfolding selected
  IsDistinct-selected child parent [] h = tt
  IsDistinct-selected child parent (((u, key), x) ∷ rows) h = ground (
    arith,
    IsDistinct-selected child parent rows h.1,
    lookup-selected child parent child key rows,
    eq_iff u parent,
    eq_iff child child,
  )

  lookup-upsert :
      (j : String × K) (rows weights : Dict (String × K) W)
      → IsDistinct rows
      → lookup j (upsert rows weights)
        ≡ (elim (lookup j rows) [ none ↦ lookup j weights | some x ↦ some x ])
  unfolding upsert lookup
  lookup-upsert j [] weights h = refl
  lookup-upsert j ((key, x) ∷ rows) weights h = ground (
    arith,
    lookup-upsert j rows (put key x weights) h.1,
    lookup-put key j x weights,
    pair_same_iff String_eq e key j,
  )

  IsDistinct-upsert :
      (rows weights : Dict (String × K) W) → IsDistinct weights → IsDistinct (upsert rows weights)
  unfolding upsert
  IsDistinct-upsert [] weights h = h
  IsDistinct-upsert ((key, x) ∷ rows) weights h =
      IsDistinct-upsert rows (put key x weights) (IsDistinct-put key x weights h)

  -- INST String_eq
  -- INST pair_eq

  abbrev copy_one : String → String → Dict (String × K) W → Dict (String × K) W
  copy_one child parent weights =
      if parent == "" then weights else upsert (selected child parent weights) weights

  IsDistinct-copy_one :
      (child parent : String) (weights : Dict (String × K) W)
      → IsDistinct weights
      → IsDistinct (copy_one child parent weights)
  IsDistinct-copy_one child parent weights h =
      ground (arith, IsDistinct-upsert (selected child parent weights) weights h)

  lookup-copy_one :
      (child parent v : String) (k : K) (weights : Dict (String × K) W)
      → IsDistinct weights
      → (child == v) ≡ false
      → lookup (v, k) (copy_one child parent weights) ≡ lookup (v, k) weights
  lookup-copy_one child parent v k weights h other = ground (
    arith,
    lookup-upsert (v, k) (selected child parent weights) weights
        (IsDistinct-selected child parent weights h),
    lookup-selected child parent v k weights,
  )

  copied :
      (child parent : String) (k : K) (x : W) (weights : Dict (String × K) W)
      → IsDistinct weights
      → (parent == "") ≡ false
      → lookup (parent, k) weights ≡ some x
      → lookup (child, k) (copy_one child parent weights) ≡ some x
  copied child parent k x weights h named found = ground (
    arith,
    lookup-upsert (child, k) (selected child parent weights) weights
        (IsDistinct-selected child parent weights h),
    lookup-selected child parent child k weights,
    eq_iff child child,
  )

  IsDistinct-copy :
      (rows : List (String × String)) (weights : Dict (String × K) W)
      → IsDistinct weights
      → IsDistinct (copy_inherited_weights rows weights)
  unfolding copy_inherited_weights
  IsDistinct-copy [] weights h = h
  IsDistinct-copy ((child, parent) ∷ rows) weights h =
      IsDistinct-copy rows _ (IsDistinct-copy_one child parent weights h)

  lookup-copy :
      (v : String) (k : K) (rows : List (String × String)) (weights : Dict (String × K) W)
      → IsDistinct weights
      → All (λ r. (r.0 == v) ≡ false) rows
      → lookup (v, k) (copy_inherited_weights rows weights) ≡ lookup (v, k) weights
  unfolding copy_inherited_weights
  lookup-copy v k [] weights h others = refl
  lookup-copy v k ((child, parent) ∷ rows) weights h others =
      lookup-copy v k rows _ (IsDistinct-copy_one child parent weights h) others.1
      ∙ lookup-copy_one child parent v k weights h others.0

  copy-append :
      (xs ys : List (String × String)) (weights : Dict (String × K) W)
      → copy_inherited_weights (xs ++ ys) weights
        ≡ copy_inherited_weights ys (copy_inherited_weights xs weights)
  unfolding copy_inherited_weights
  copy-append [] ys weights = refl
  copy-append (r ∷ xs) ys weights = copy-append xs ys _

  -- Once the schemes have inherited, a scheme has every weight of the one that it names, provided
  -- that neither of the two comes again as an inheritor further down the file, that a scheme does
  -- not name itself, and that no key stood twice.
  pub copy-inherits :
      (before after : List (String × String)) (child parent : String) (k : K) (x : W)
      (weights : Dict (String × K) W)
      → IsDistinct weights
      → (parent == "") ≡ false
      → (child == parent) ≡ false
      → All (λ r. (r.0 == child) ≡ false) after
      → All (λ r. (r.0 == parent) ≡ false) after
      → let copies = copy_inherited_weights (before ++ (child, parent) ∷ after) weights in
        lookup (parent, k) copies ≡ some x → lookup (child, k) copies ≡ some x
  unfolding copy_inherited_weights
  copy-inherits before after child parent k x weights h named other c p found =
      let so_far = copy_inherited_weights before weights in
      let h₁ = IsDistinct-copy before weights h in
      let h₂ = IsDistinct-copy_one child parent so_far h₁ in
      let split = copy-append before ((child, parent) ∷ after) weights in
      let in_parent : lookup (parent, k) so_far ≡ some x =
        sym (lookup-copy_one child parent parent k so_far h₁ other)
        ∙ (sym (lookup-copy parent k after _ h₂ p)
            ∙ (ap (lookup (parent, k)) (sym split) ∙ found)) in
      ap (lookup (child, k)) split
      ∙ (lookup-copy child k after _ h₂ c ∙ copied child parent k x so_far h₁ named in_parent)
