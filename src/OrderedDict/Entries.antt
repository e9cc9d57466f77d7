-- ===== src/OrderedDict/Entries.antt =====
-- Predicates on every entry, and sums over the values.
use crime_prevention_and_per.Prelude.{
  if◌then◌else◌, Bool-cases, Option-cases, drop, All, sum_by, sum_by-append, All-append, Hashable,
  ◌==◌, ℕ, zero, suc, ◌+◌, ◌≡◌, refl, sym, subst, ◌∙◌, inl, inr, some, [], ◌∷◌, ◌++◌, arith,
}
use crime_prevention_and_per.OrderedDict.Laws.{move_to_end_hit, move_to_end_miss}
use crime_prevention_and_per.OrderedDict.Defs.{Dict, lookup, remove, put, move_to_end}

module _ {ℓ κ} {K : Type ℓ} {V : Type κ} where
  -- The sum of a measure of the values.
  abbrev pub weight : (V → ℕ) → Dict K V → ℕ
  weight f d = sum_by (λ x. f x.1) d

  -- A predicate on every entry's key and value.
  abbrev pub Entries {μ} : (K → V → Type μ) → Dict K V → Type μ
  Entries P d = All (λ x. P x.0 x.1) d

module _ {ℓ κ} {K : Type ℓ} {V : Type κ} ⦃e : Hashable K⦄ where
  pub weight-remove :
      (f : V → ℕ) (k : K) (v : V) (d : Dict K V)
      → lookup k d ≡ some v
      → weight f (remove k d) + f v ≡ weight f d
  unfolding lookup remove
  weight-remove f k v [] h = ground arith
  weight-remove f k v ((j, w) ∷ d) h = elim (Bool-cases (j == k)) [
    | inl here ↦
        let p : (if j == k then some w else lookup k d) ≡ some v = h in
        let q : w ≡ v = ground arith in rw here (rw q (omega arith))
    | inr there ↦
        let p : (if j == k then some w else lookup k d) ≡ some v = h in
        let q : lookup k d ≡ some v = ground arith in
        rw there (omega (arith, weight-remove f k v d q))
  ]

  pub Entries-remove {μ} :
      (P : K → V → Type μ) (k : K) (d : Dict K V) → Entries P d → Entries P (remove k d)
  unfolding remove
  Entries-remove P k [] h = tt
  Entries-remove P k ((j, w) ∷ d) h = elim (Bool-cases (j == k)) [
    | inl here ↦ rw here h.1
    | inr there ↦ rw there (h.0, Entries-remove P k d h.1)
  ]

  pub Entries-drop {μ} :
      (P : K → V → Type μ) (n : ℕ) (d : Dict K V) → Entries P d → Entries P (drop n d)
  Entries-drop P zero d h = h
  Entries-drop P (suc n) [] h = tt
  Entries-drop P (suc n) (x ∷ d) h = Entries-drop P n d h.1

  pub Entries-lookup {μ} :
      (P : K → V → Type μ) (k : K) (v : V) (d : Dict K V)
      → Entries P d
      → lookup k d ≡ some v
      → P k v
  unfolding lookup
  Entries-lookup P k v [] h p = absurd (cc)
  Entries-lookup P k v ((j, w) ∷ d) h p = elim (Bool-cases (j == k)) [
    | inl here ↦
        let q : w ≡ v = ground arith in
        subst (λ x. P k x) q (subst (λ i. P i w) ((e.same_iff j k).0 here) h.0)
    | inr there ↦ Entries-lookup P k v d h.1 (ground arith)
  ]

  pub Entries-append {μ} :
      (P : K → V → Type μ) (c d : Dict K V) → Entries P c → Entries P d → Entries P (c ++ d)
  Entries-append P c d h k = All-append (λ x. P x.0 x.1) c d h k

  pub Entries-put {μ} :
      (P : K → V → Type μ) (k : K) (v : V) (d : Dict K V)
      → P k v
      → Entries P d
      → Entries P (put k v d)
  unfolding put
  Entries-put P k v [] h t = (h, tt)
  Entries-put P k v ((j, w) ∷ d) h t = elim (Bool-cases (j == k)) [
    | inl here ↦ rw here (subst (λ i. P i v) (sym ((e.same_iff j k).0 here)) h, t.1)
    | inr there ↦ rw there (t.0, Entries-put P k v d h t.1)
  ]

  pub Entries-move_to_end {μ} :
      (P : K → V → Type μ) (k : K) (d : Dict K V) → Entries P d → Entries P (move_to_end k d)
  Entries-move_to_end P k d h = elim (Option-cases (lookup k d)) [
    | inl a ↦ rw (move_to_end_miss k d a) h
    | inr (v, p) ↦ rw (move_to_end_hit k v d p) (
        Entries-append P (remove k d) ((k, v) ∷ []) (Entries-remove P k d h)
          (Entries-lookup P k v d h p, tt))
  ]

  pub weight-append_one :
      (f : V → ℕ) (k : K) (v : V) (d : Dict K V) → weight f (d ++ (k, v) ∷ []) ≡ weight f d + f v
  weight-append_one f k v d = sum_by-append (λ x. f x.1) d ((k, v) ∷ []) ∙ (omega arith)

  pub weight-move_to_end :
      (f : V → ℕ) (k : K) (d : Dict K V) → weight f (move_to_end k d) ≡ weight f d
  weight-move_to_end f k d = elim (Option-cases (lookup k d)) [
    | inl a ↦ rw (move_to_end_miss k d a) refl
    | inr (v, p) ↦
        rw (move_to_end_hit k v d p)
          (weight-append_one f k v (remove k d) ∙ weight-remove f k v d p)
  ]
