-- ===== src/OrderedDict/Counting.antt =====
-- A dictionary of counts, as `d[k] = d.get(k, 0) + 1` builds it.
use crime_prevention_and_per.Prelude.{
  if◌then◌else◌, Bool-cases, sum_by, sum_by-append, Hashable, ◌==◌, ℕ, ◌+◌, ◌≡◌, refl, ap, subst,
  ◌∙◌, inl, inr, none, some, [], ◌∷◌, ◌++◌, arith,
}
use crime_prevention_and_per.OrderedDict.Defs.{Dict, lookup, put, IsDistinct}
use crime_prevention_and_per.OrderedDict.Laws.{same_refl, lookup-put, put_absent}

module _ {ℓ κ} {K : Type ℓ} {V : Type κ} ⦃e : Hashable K⦄ where
  -- The sum of a function of the keys.
  abbrev pub key_sum : (K → ℕ) → Dict K V → ℕ
  key_sum h d = sum_by (λ x. h x.0) d

  key_sum-append_one :
      (h : K → ℕ) (k : K) (v : V) (d : Dict K V) → key_sum h (d ++ (k, v) ∷ []) ≡ key_sum h d + h k
  key_sum-append_one h k v d = sum_by-append (λ x. h x.0) d ((k, v) ∷ []) ∙ (omega arith)

  pub key_sum-put_new :
      (h : K → ℕ) (k : K) (v : V) (d : Dict K V)
      → lookup k d ≡ none
      → key_sum h (put k v d) ≡ key_sum h d + h k
  key_sum-put_new h k v d p = rw (put_absent k v d p) (key_sum-append_one h k v d)

  pub key_sum-put_old :
      (h : K → ℕ) (k : K) (v w : V) (d : Dict K V)
      → lookup k d ≡ some w
      → key_sum h (put k v d) ≡ key_sum h d
  unfolding put lookup
  key_sum-put_old h k v w [] p = absurd (cc)
  key_sum-put_old h k v w ((j, u) ∷ d) p = elim (Bool-cases (j == k)) [
    | inl here ↦ rw here refl
    | inr there ↦ rw there (ap (λ n. h j + n) (key_sum-put_old h k v w d (ground arith)))
  ]

module _ {ℓ} {K : Type ℓ} ⦃e : Hashable K⦄ where
  -- `counts.get(k, 0)`
  abbrev pub count_of : K → Dict K ℕ → ℕ
  count_of k counts = elim (lookup k counts) [ none ↦ 0 | some n ↦ n ]

  -- `counts[k] = counts.get(k, 0) + 1`
  abbrev pub add_one : K → Dict K ℕ → Dict K ℕ
  add_one k counts = put k (count_of k counts + 1) counts

  pub count_of-add_one :
      (k j : K) (d : Dict K ℕ)
      → count_of j (add_one k d) ≡ (if k == j then count_of k d + 1 else count_of j d)
  count_of-add_one k j d = ground (arith, lookup-put k j (count_of k d + 1) d)

  weight_put :
      (k : K) (n : ℕ) (d : Dict K ℕ)
      → sum_by (λ x. x.1) (put k n d) + count_of k d ≡ sum_by (λ x. x.1) d + n
  unfolding put lookup
  weight_put k n [] = omega arith
  weight_put k n ((j, m) ∷ d) = ground (arith, weight_put k n d)

  -- Each call counts one more.
  pub total-add_one :
      (k : K) (d : Dict K ℕ) → sum_by (λ x. x.1) (add_one k d) ≡ sum_by (λ x. x.1) d + 1
  total-add_one k d = omega (arith, weight_put k (count_of k d + 1) d)

module _ {ℓ κ} {K : Type ℓ} {V : Type κ} ⦃e : Hashable K⦄ where
  key_sum-other :
      (k : K) (g : Dict K ℕ) (d : Dict K V)
      → lookup k d ≡ none
      → key_sum (λ j. count_of j (add_one k g)) d ≡ key_sum (λ j. count_of j g) d
  unfolding lookup
  key_sum-other k g [] p = refl
  key_sum-other k g ((j, v) ∷ d) p = elim (Bool-cases (j == k)) [
    | inl here ↦ absurd (ground arith)
    | inr there ↦
        ground (arith, count_of-add_one k j g, e.same_iff j k, e.same_iff k j, key_sum-other k g d)
  ]

  -- The counts of a dictionary's keys, when one of them is counted once more.
  pub key_sum-add_one :
      (k : K) (w : V) (g : Dict K ℕ) (d : Dict K V)
      → IsDistinct d
      → lookup k d ≡ some w
      → key_sum (λ j. count_of j (add_one k g)) d ≡ key_sum (λ j. count_of j g) d + 1
  unfolding lookup
  key_sum-add_one k w g [] h p = absurd (cc)
  key_sum-add_one k w g ((j, v) ∷ d) h p = elim (Bool-cases (j == k)) [
    | inl here ↦
        let same = (e.same_iff j k).0 here in
        let gone : lookup k d ≡ none = subst (λ i. lookup i d ≡ none) same h.0 in
        let counted : count_of j (add_one k g) ≡ count_of j g + 1 =
          subst (λ i. count_of j (add_one i g) ≡ count_of j g + 1) same
            (count_of-add_one j j g ∙ (rw (same_refl j) refl)) in
        omega (arith, counted, key_sum-other k g d gone)
    | inr there ↦
        ground (
          arith,
          count_of-add_one k j g,
          e.same_iff j k,
          e.same_iff k j,
          key_sum-add_one k w g d h.1,
        )
  ]

  pub key_sum-absent :
      (k : K) (g : Dict K ℕ) (d : Dict K V)
      → lookup k d ≡ none
      → key_sum (λ j. count_of j (add_one k g)) d ≡ key_sum (λ j. count_of j g) d
  key_sum-absent k g d p = key_sum-other k g d p
