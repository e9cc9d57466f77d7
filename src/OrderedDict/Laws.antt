-- ===== src/OrderedDict/Laws.antt =====
-- What a lookup finds after each operation, and that keys stay distinct.
use crime_prevention_and_per.Prelude.{
  if◌then◌else◌, Option-cases, length, drop, length-append, Hashable, ◌==◌, ℕ, zero, suc, ◌+◌, ◌≤◌,
  ◌≡◌, refl, inl, inr, true, Option, none, some, [], ◌∷◌, ◌++◌, arith,
}
use crime_prevention_and_per.OrderedDict.Defs.{Dict, lookup, remove, put, move_to_end, IsDistinct}

pub same_refl {ℓ} : {K : Type ℓ} ⦃e : Hashable K⦄ (k : K) → (k == k) ≡ true
same_refl ⦃e⦄ k = (e.same_iff k k).1 refl

abbrev pub or_else {ℓ} : {A : Type ℓ} → Option A → Option A → Option A
or_else none b = b
or_else (some a) b = some a

module _ {ℓ κ} {K : Type ℓ} {V : Type κ} ⦃e : Hashable K⦄ where
  pub lookup-put :
      (k j : K) (v : V) (d : Dict K V)
      → lookup j (put k v d) ≡ (if k == j then some v else lookup j d)
  unfolding lookup put
  lookup-put k j v [] = refl
  lookup-put k j v ((i, w) ∷ d) =
      ground (arith, e.same_iff k j, e.same_iff i k, e.same_iff i j, lookup-put k j v d)

  pub lookup-remove :
      (k j : K) (d : Dict K V)
      → IsDistinct d
      → lookup j (remove k d) ≡ (if k == j then none else lookup j d)
  unfolding lookup remove
  lookup-remove k j [] h = ground arith
  lookup-remove k j ((i, w) ∷ d) h =
      ground (arith, e.same_iff k j, e.same_iff i k, e.same_iff i j, lookup-remove k j d h.1)

  pub lookup-append :
      (j : K) (c d : Dict K V) → lookup j (c ++ d) ≡ or_else (lookup j c) (lookup j d)
  unfolding lookup
  lookup-append j [] d = refl
  lookup-append j ((i, w) ∷ c) d = ground (arith, lookup-append j c d)

  pub lookup-one : (k j : K) (v : V) → lookup j ((k, v) ∷ []) ≡ (if k == j then some v else none)
  unfolding lookup
  lookup-one k j v = refl

  pub IsDistinct-remove : (k : K) (d : Dict K V) → IsDistinct d → IsDistinct (remove k d)
  unfolding remove
  IsDistinct-remove k [] h = tt
  IsDistinct-remove k ((i, w) ∷ d) h =
      ground (arith, IsDistinct-remove k d h.1, lookup-remove k i d h.1)

  pub IsDistinct-put : (k : K) (v : V) (d : Dict K V) → IsDistinct d → IsDistinct (put k v d)
  unfolding put lookup
  IsDistinct-put k v [] h = (refl, tt)
  IsDistinct-put k v ((i, w) ∷ d) h =
      ground (arith, IsDistinct-put k v d h.1, lookup-put k i v d, e.same_iff i k, e.same_iff k i)

  pub IsDistinct-append_one :
      (k : K) (v : V) (d : Dict K V)
      → IsDistinct d
      → lookup k d ≡ none
      → IsDistinct (d ++ (k, v) ∷ [])
  unfolding lookup
  IsDistinct-append_one k v [] h n = (refl, tt)
  IsDistinct-append_one k v ((i, w) ∷ d) h n = ground (
    arith,
    IsDistinct-append_one k v d h.1,
    lookup-append i d ((k, v) ∷ []),
    e.same_iff i k,
    e.same_iff k i,
  )

  pub lookup-remove_self : (k : K) (d : Dict K V) → IsDistinct d → lookup k (remove k d) ≡ none
  lookup-remove_self k d h = rw (lookup-remove k k d h) (rw (same_refl k))

  pub move_to_end_hit :
      (k : K) (v : V) (d : Dict K V)
      → lookup k d ≡ some v
      → move_to_end k d ≡ remove k d ++ (k, v) ∷ []
  unfolding move_to_end
  move_to_end_hit k v d p = ground arith

  pub move_to_end_miss : (k : K) (d : Dict K V) → lookup k d ≡ none → move_to_end k d ≡ d
  unfolding move_to_end
  move_to_end_miss k d p = ground arith

  pub IsDistinct-move_to_end : (k : K) (d : Dict K V) → IsDistinct d → IsDistinct (move_to_end k d)
  IsDistinct-move_to_end k d h = elim (Option-cases (lookup k d)) [
    | inl a ↦ rw (move_to_end_miss k d a) h
    | inr (v, p) ↦ rw (move_to_end_hit k v d p) (
        IsDistinct-append_one k v (remove k d) (IsDistinct-remove k d h) (lookup-remove_self k d h))
  ]

  pub lookup-move_to_end :
      (k j : K) (d : Dict K V) → IsDistinct d → lookup j (move_to_end k d) ≡ lookup j d
  lookup-move_to_end k j d h = elim (Option-cases (lookup k d)) [
    | inl a ↦ rw (move_to_end_miss k d a) refl
    | inr (v, p) ↦ rw (move_to_end_hit k v d p) (
        rw (lookup-append j (remove k d) ((k, v) ∷ []))
          (rw (lookup-remove k j d h) (rw (lookup-one k j v) (ground (arith, e.same_iff k j)))))
  ]

  pub length-remove-le : (k : K) (d : Dict K V) → length (remove k d) ≤ length d
  unfolding remove
  length-remove-le k [] = omega arith
  length-remove-le k ((i, w) ∷ d) = ground (arith, length-remove-le k d)

  pub length-remove :
      (k : K) (d : Dict K V) (v : V) → lookup k d ≡ some v → length (remove k d) + 1 ≡ length d
  unfolding remove lookup
  length-remove k [] v h = ground arith
  length-remove k ((i, w) ∷ d) v h = ground (arith, length-remove k d v)

  pub remove_absent : (k : K) (d : Dict K V) → lookup k d ≡ none → remove k d ≡ d
  unfolding remove lookup
  remove_absent k [] h = refl
  remove_absent k ((i, w) ∷ d) h = ground (arith, remove_absent k d)

  pub length-put-le : (k : K) (v : V) (d : Dict K V) → length (put k v d) ≤ length d + 1
  unfolding put
  length-put-le k v [] = omega arith
  length-put-le k v ((i, w) ∷ d) = ground (arith, length-put-le k v d)

  pub length-move_to_end : (k : K) (d : Dict K V) → length (move_to_end k d) ≡ length d
  length-move_to_end k d = elim (Option-cases (lookup k d)) [
    | inl a ↦ rw (move_to_end_miss k d a) refl
    | inr (v, p) ↦
        rw (move_to_end_hit k v d p)
          (omega (arith, length-append (remove k d) ((k, v) ∷ []), length-remove k d v p))
  ]

  pub put_absent : (k : K) (v : V) (d : Dict K V) → lookup k d ≡ none → put k v d ≡ d ++ (k, v) ∷ []
  unfolding put lookup
  put_absent k v [] h = refl
  put_absent k v ((i, w) ∷ d) h = ground (arith, put_absent k v d)

  pub lookup-drop : (n : ℕ) (k : K) (d : Dict K V) → lookup k d ≡ none → lookup k (drop n d) ≡ none
  unfolding lookup
  lookup-drop zero k d h = h
  lookup-drop (suc n) k [] h = refl
  lookup-drop (suc n) k ((i, w) ∷ d) h = lookup-drop n k d (ground arith)

  pub IsDistinct-drop : (n : ℕ) (d : Dict K V) → IsDistinct d → IsDistinct (drop n d)
  IsDistinct-drop zero d h = h
  IsDistinct-drop (suc n) [] h = tt
  IsDistinct-drop (suc n) ((i, w) ∷ d) h = IsDistinct-drop n d h.1
