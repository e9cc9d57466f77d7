-- ===== src/OrderedDict/Touch.antt =====
-- The bounded table of recent keys that the throttle and the rate limiter keep: a key that is
-- written becomes the most recent, and what no longer fits is dropped from the old end.
use crime_prevention_and_per.Prelude.{
  Option-cases, length, drop, length-append, Hashable, ◌==◌, ℕ, zero, suc, ◌+◌, ◌-◌, ◌≤◌, ◌<◌, ◌≡◌,
  refl, sym, ap, subst, ◌∙◌, inl, inr, false, none, some, List, [], ◌∷◌, ◌++◌, append_assoc, arith,
}
use crime_prevention_and_per.OrderedDict.Defs.{Dict, lookup, remove, put, move_to_end, IsDistinct}
use crime_prevention_and_per.OrderedDict.Laws.{
  same_refl, lookup-put, lookup-append, IsDistinct-remove, IsDistinct-append_one,
  lookup-remove_self, move_to_end_hit, length-remove-le, lookup-drop, IsDistinct-drop,
}
use crime_prevention_and_per.OrderedDict.Order.{trim, trim-drop, length-trim-le}

module _ {ℓ} {A : Type ℓ} where
  drop-append : (m : ℕ) (xs ys : List A) → m ≤ length xs → drop m (xs ++ ys) ≡ drop m xs ++ ys
  drop-append zero xs ys h = refl
  drop-append (suc m) [] ys h = absurd (omega arith)
  drop-append (suc m) (x ∷ xs) ys h = drop-append m xs ys (omega arith)

module _ {ℓ κ} {K : Type ℓ} {V : Type κ} ⦃e : Hashable K⦄ where
  -- `d[k] = v; d.move_to_end(k); while len(d) > size: d.popitem(last=False)`
  unfoldable pub touch : ℕ → K → V → Dict K V → Dict K V
  touch size k v d = trim size (move_to_end k (put k v d))

  remove-put : (k : K) (v : V) (d : Dict K V) → remove k (put k v d) ≡ remove k d
  unfolding remove put
  remove-put k v [] = ground (arith, e.same_iff k k)
  remove-put k v ((j, w) ∷ d) = ground (arith, remove-put k v d, e.same_iff j k)

  pub touch_lem :
      (size : ℕ) (k : K) (v : V) (d : Dict K V)
      → touch size k v d ≡ trim size (remove k d ++ (k, v) ∷ [])
  unfolding touch
  touch_lem size k v d = ap (trim size) (
      move_to_end_hit k v (put k v d) (lookup-put k k v d ∙ rw (same_refl k))
      ∙ ap (λ r. r ++ (k, v) ∷ []) (remove-put k v d))

  -- `k` has the value `v`, and at most `n` keys were written after it.
  pub record Recent (k : K) (v : V) (n : ℕ) (d : Dict K V) : Type (ℓ ⊔ κ) where
    pub older : Dict K V
    pub newer : Dict K V
    pub split : d ≡ older ++ (k, v) ∷ newer
    pub first : lookup k older ≡ none
    pub few : length newer ≤ n

  pub lookup-Recent : {k : K} {v : V} {n : ℕ} {d : Dict K V} → Recent k v n d → lookup k d ≡ some v
  lookup-Recent {k} {v} {n} {d} r =
      rw (r.split, lookup-append k r.older ((k, v) ∷ r.newer), r.first)
        (unfold lookup in rw (same_refl k))

  Recent-trim :
      {k : K} {v : V} {n : ℕ} {d : Dict K V} (size : ℕ)
      → n < size
      → Recent k v n d
      → Recent k v n (trim size d)
  Recent-trim {k} {v} {n} {d} size h r =
      let m = length d - size in
      let len : length d ≡ length r.older + suc (length r.newer) =
        rw r.split (length-append r.older ((k, v) ∷ r.newer)) in
      let few = r.few in
      record {
        older = drop m r.older;
        newer = r.newer;
        split =
            trim-drop size d
            ∙ ap (drop m) r.split
            ∙ drop-append m r.older ((k, v) ∷ r.newer) (omega arith);
        first = lookup-drop m k r.older r.first;
        few = r.few;
      }

  pub Recent-touch_self :
      (size : ℕ) (k : K) (v : V) (d : Dict K V)
      → 0 < size
      → IsDistinct d
      → Recent k v 0 (touch size k v d)
  Recent-touch_self size k v d h q = subst (Recent k v 0) (sym (touch_lem size k v d)) (
      Recent-trim size h (record {
        older = remove k d;
        newer = [];
        split = refl;
        first = lookup-remove_self k d q;
        few = omega arith;
      }))

  remove-append_hit :
      (j : K) (w : V) (c d : Dict K V) → lookup j c ≡ some w → remove j (c ++ d) ≡ remove j c ++ d
  unfolding lookup remove
  remove-append_hit j w [] d h = ground arith
  remove-append_hit j w ((i, u) ∷ c) d h = ground (arith, remove-append_hit j w c d)

  remove-append_miss :
      (j : K) (c d : Dict K V) → lookup j c ≡ none → remove j (c ++ d) ≡ c ++ remove j d
  unfolding lookup remove
  remove-append_miss j [] d h = refl
  remove-append_miss j ((i, u) ∷ c) d h = ground (arith, remove-append_miss j c d)

  remove-cons_ne :
      (j k : K) (v : V) (d : Dict K V)
      → (k == j) ≡ false
      → remove j ((k, v) ∷ d) ≡ (k, v) ∷ remove j d
  unfolding remove
  remove-cons_ne j k v d h = ground arith

  lookup-remove-none : (j k : K) (d : Dict K V) → lookup k d ≡ none → lookup k (remove j d) ≡ none
  unfolding lookup remove
  lookup-remove-none j k [] h = refl
  lookup-remove-none j k ((i, u) ∷ d) h = ground (arith, lookup-remove-none j k d)

  pub Recent-remove :
      {k : K} {v : V} {n : ℕ} {d : Dict K V} (j : K)
      → (k == j) ≡ false
      → Recent k v n d
      → Recent k v n (remove j d)
  Recent-remove {k} {v} {n} {d} j h r = elim (Option-cases (lookup j r.older)) [
    | inl miss ↦ record {
      older = r.older;
      newer = remove j r.newer;
      split =
          ap (remove j) r.split
          ∙ remove-append_miss j r.older ((k, v) ∷ r.newer) miss
          ∙ ap (λ x. r.older ++ x) (remove-cons_ne j k v r.newer h);
      first = r.first;
      few = let few = r.few in omega (arith, length-remove-le j r.newer);
    }
    | inr (w, found) ↦ record {
      older = remove j r.older;
      newer = r.newer;
      split = ap (remove j) r.split ∙ remove-append_hit j w r.older ((k, v) ∷ r.newer) found;
      first = lookup-remove-none j k r.older r.first;
      few = r.few;
    }
  ]

  Recent-append_one :
      {k : K} {v : V} {n : ℕ} {d : Dict K V} (j : K) (w : V)
      → Recent k v n d
      → Recent k v (suc n) (d ++ (j, w) ∷ [])
  Recent-append_one {k} {v} {n} {d} j w r = record {
    older = r.older;
    newer = r.newer ++ (j, w) ∷ [];
    split =
        ap (λ x. x ++ (j, w) ∷ []) r.split ∙ append_assoc r.older ((k, v) ∷ r.newer) ((j, w) ∷ []);
    first = r.first;
    few = let few = r.few in omega (arith, length-append r.newer ((j, w) ∷ []));
  }

  -- Another key's write makes an entry one place older, and drops it only if `size` keys are newer.
  pub Recent-touch_ne :
      {k : K} {v : V} {n : ℕ} {d : Dict K V} (size : ℕ) (j : K) (w : V)
      → (k == j) ≡ false
      → suc n < size
      → Recent k v n d
      → Recent k v (suc n) (touch size j w d)
  Recent-touch_ne {k} {v} {n} {d} size j w h room r =
      subst (Recent k v (suc n)) (sym (touch_lem size j w d))
        (Recent-trim size room (Recent-append_one j w (Recent-remove j h r)))

  pub IsDistinct-touch :
      (size : ℕ) (k : K) (v : V) (d : Dict K V) → IsDistinct d → IsDistinct (touch size k v d)
  IsDistinct-touch size k v d q =
      let d' = remove k d ++ (k, v) ∷ [] in
      subst IsDistinct (sym (touch_lem size k v d ∙ trim-drop size d')) (
        IsDistinct-drop (length d' - size) d' (
          IsDistinct-append_one k v (remove k d) (IsDistinct-remove k d q)
            (lookup-remove_self k d q)))

  pub length-touch-le : (size : ℕ) (k : K) (v : V) (d : Dict K V) → length (touch size k v d) ≤ size
  unfolding touch
  length-touch-le size k v d = length-trim-le size (move_to_end k (put k v d))

  pub Recent-weaken : {k : K} {v : V} {n : ℕ} {d : Dict K V} → Recent k v n d → Recent k v (suc n) d
  Recent-weaken r = record {
    older = r.older;
    newer = r.newer;
    split = r.split;
    first = r.first;
    few = let few = r.few in omega arith;
  }
