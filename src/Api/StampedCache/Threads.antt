-- ===== src/Api/StampedCache/Threads.antt =====
-- What every interleaving keeps: the budgets, one leader for each layer, no stale answer.
use crime_prevention_and_per.Prelude.{
  Bool-cases, Hashable, pair_eq, String_eq, ◌==◌, ℕ, ◌+◌, ◌≤◌, String, ◌≡◌, refl, sym, ap, subst,
  ◌∙◌, inl, inr, Bool, true, Option, none, some, [], arith, eq_iff,
}
use crime_prevention_and_per.OrderedDict.{IsDistinct-remove, lookup, remove, Dict, IsDistinct}
use crime_prevention_and_per.OrderedDict.Entries.{Entries, Entries-lookup, Entries-move_to_end}
use crime_prevention_and_per.Api.StampedCache.{
  Cache, empty, serve, enter, follow, give_up, complete,
}
use crime_prevention_and_per.Api.StampedCache.Bounds.{IsValid, Entries-store}
use crime_prevention_and_per.Api.StampedCache.Turns.{
  Threads, began, live, planned, Step, ask, wait, fail, finish, Reach, here, next, enter-entries,
  inflight-enter, enter-planned,
}
use crime_prevention_and_per.Api.StampedCache.Blocks.{
  enter-IsValid, complete-IsValid, follow-IsValid, give_up-IsValid, inflight-complete,
  inflight-give_up, inflight-follow,
}

module _ {ℓ κ μ} {K : Type ℓ} {V : Type κ} ⦃e : Hashable K⦄ (size : V → ℕ)
    (P : K → String → V → Type μ) where
  abbrev Produced : K → String × V → Type μ
  Produced k x = P k x.0 x.1

  -- The table of Futures is the leaders that run, each layer once.
  abbrev IsTracked : Threads K V → Type ℓ
  IsTracked w = (w.leaders ≡ w.cache.inflight) × IsDistinct w.leaders

  Step-IsTracked : {w x : Threads K V} → Step size P w x → IsTracked w → IsTracked x
  Step-IsTracked {w} (ask k stamp cacheable) (p, d) =
      let (q, r) = inflight-enter w.cache k stamp cacheable (subst (λ i. IsDistinct i) p d) in
      let joined : began (enter w.cache k stamp cacheable).0 k stamp w.leaders
          ≡ (enter w.cache k stamp cacheable).1.inflight =
        ap (began (enter w.cache k stamp cacheable).0 k stamp) p ∙ sym q in
      (joined, subst (λ i. IsDistinct i) (sym joined) r)
  Step-IsTracked {w} wait (p, d) = (p ∙ sym (inflight-follow size w.cache), d)
  Step-IsTracked {w} (fail k stamp t o) (p, d) = (
    ap (remove (k, stamp)) p ∙ sym (inflight-give_up size w.cache k stamp),
    IsDistinct-remove (k, stamp) w.leaders d,
  )
  Step-IsTracked {w} (finish k stamp t v o h) (p, d) = (
    ap (remove (k, stamp)) p ∙ sym (inflight-complete size w.cache k stamp v),
    IsDistinct-remove (k, stamp) w.leaders d,
  )

  Step-IsValid : {w x : Threads K V} → Step size P w x → IsValid size w.cache → IsValid size x.cache
  Step-IsValid {w} (ask k stamp cacheable) h = enter-IsValid size w.cache k stamp cacheable h
  Step-IsValid {w} wait h = follow-IsValid size w.cache h
  Step-IsValid {w} (fail k stamp t o) h = give_up-IsValid size w.cache k stamp h
  Step-IsValid {w} (finish k stamp t v o p) h = complete-IsValid size w.cache k stamp v h

  Entries-enter :
      (c : Cache K V) (k : K) (stamp : Option String) (cacheable : Bool)
      → Entries Produced c.entries
      → Entries Produced (enter c k stamp cacheable).1.entries
  Entries-enter c k stamp cacheable h = elim (enter-entries c k stamp cacheable) [
    | inl p ↦ rw p h
    | inr p ↦ rw p (Entries-move_to_end Produced k c.entries h)
  ]

  Step-Entries :
      {w x : Threads K V}
      → Step size P w x
      → Entries Produced w.cache.entries
      → Entries Produced x.cache.entries
  unfolding follow give_up complete
  Step-Entries {w} (ask k stamp cacheable) h = Entries-enter w.cache k stamp cacheable h
  Step-Entries {w} wait h = h
  Step-Entries {w} (fail k stamp t o) h = h
  Step-Entries {w} (finish k stamp t v o p) h =
      Entries-store size Produced (record w.cache { misses = w.cache.misses + 1 }) k stamp v p h

  Reach-IsValid :
      {w x : Threads K V} → IsValid size w.cache → Reach size P w x → IsValid size x.cache
  Reach-IsValid h here = h
  Reach-IsValid h (next r s) = Step-IsValid s (Reach-IsValid h r)

  Reach-IsTracked : {w x : Threads K V} → IsTracked w → Reach size P w x → IsTracked x
  Reach-IsTracked h here = h
  Reach-IsTracked h (next r s) = Step-IsTracked s (Reach-IsTracked h r)

  Reach-Entries :
      {w x : Threads K V}
      → Entries Produced w.cache.entries
      → Reach size P w x
      → Entries Produced x.cache.entries
  Reach-Entries h here = h
  Reach-Entries h (next r s) = Step-Entries s (Reach-Entries h r)

  abbrev pub start : ℕ → ℕ → Threads K V
  start max_bytes max_entries = record { cache = empty max_bytes max_entries; leaders = [] }

  -- However threads interleave, the cache counts exactly the bytes that it holds, and keeps within
  -- its budget of bytes and its number of entries, with one entry for each key. At least one entry
  -- is allowed.
  pub budgets_hold :
      (max_bytes max_entries : ℕ) (w : Threads K V)
      → 1 ≤ max_entries
      → Reach size P (start max_bytes max_entries) w
      → IsValid size w.cache
  unfolding empty
  budgets_hold max_bytes max_entries w h r =
      Reach-IsValid
        (record {
          positive = h;
          distinct = tt;
          counted = refl;
          light = omega arith;
          few = omega arith;
        })
        r

  -- However threads interleave, at most one producer runs for each layer and stamp. A caller gets
  -- the entry whose stamp stands, if there is one; else it waits for the producer that runs for its
  -- layer and stamp; else it is the one that runs it. So it is also after a producer that raised.
  pub one_leader :
      (max_bytes max_entries : ℕ) (w : Threads K V) (k : K) (stamp : String)
      → Reach size P (start max_bytes max_entries) w
      → IsDistinct w.leaders
        × ((enter w.cache k (some stamp) true).0
            ≡ planned
                (live stamp (lookup k w.cache.entries))
                (lookup (k, stamp) w.leaders)
                w.cache.next_future)
  unfolding empty
  one_leader max_bytes max_entries w k stamp r =
      let (p, d) = Reach-IsTracked (refl, tt) r in
      (
        d,
        enter-planned w.cache k stamp
            ∙ ap (λ o. planned (live stamp (lookup k w.cache.entries)) o w.cache.next_future)
                (sym (ap (lookup (k, stamp)) p)),
      )

  live-Produced :
      (k : K) (stamp : String) (v : V) (o : Option (String × V)) (d : Dict K (String × V))
      → Entries Produced d
      → lookup k d ≡ o
      → live stamp o ≡ some v
      → P k stamp v
  live-Produced k stamp v none d h p q = absurd (cc)
  live-Produced k stamp v (some (s, x)) d h p q = elim (Bool-cases (s == stamp)) [
    | inl same ↦
        let made = Entries-lookup Produced k (s, x) d h p in
        let at : x ≡ v = ground arith in
        subst (λ y. P k stamp y) at (subst (λ t. P k t x) ((eq_iff s stamp).0 same) made)
    | inr other ↦ absurd (ground arith)
  ]

  serves_live : (v : V) (l : Option V) (o : Option ℕ) (n : ℕ) → planned l o n ≡ serve v → l ≡ some v
  serves_live v none none n p = cc
  serves_live v none (some t) n p = cc
  serves_live v (some x) o n p = ap some (cc)

  -- However threads interleave, a value that is served from the cache for a layer and its city's
  -- stamp was returned by a producer for that very layer and stamp: whatever `P` holds of all that
  -- the producers return holds of it. Nothing that an earlier refresh left behind is served.
  pub served_fresh :
      (max_bytes max_entries : ℕ) (w : Threads K V) (k : K) (stamp : String) (v : V)
      → Reach size P (start max_bytes max_entries) w
      → (enter w.cache k (some stamp) true).0 ≡ serve v
      → P k stamp v
  unfolding empty
  served_fresh max_bytes max_entries w k stamp v r p =
      live-Produced k stamp v (lookup k w.cache.entries) w.cache.entries (Reach-Entries tt r) refl (
        serves_live v (live stamp (lookup k w.cache.entries)) (lookup (k, stamp) w.cache.inflight)
          w.cache.next_future (sym (enter-planned w.cache k stamp) ∙ p))
