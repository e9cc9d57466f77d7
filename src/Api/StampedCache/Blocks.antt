-- ===== src/Api/StampedCache/Blocks.antt =====
-- What each block under the lock keeps: the budgets, and the table of Futures.
use crime_prevention_and_per.Prelude.{
  Hashable, pair_eq, String_eq, ℕ, ◌+◌, String, ◌≡◌, refl, sym, ap, ◌∙◌, inl, inr, Bool, Option,
  arith,
}
use crime_prevention_and_per.OrderedDict.{IsDistinct-move_to_end, length-move_to_end, remove}
use crime_prevention_and_per.OrderedDict.Entries.{weight-move_to_end}
use crime_prevention_and_per.Api.StampedCache.{Cache, store, enter, follow, give_up, complete}
use crime_prevention_and_per.Api.StampedCache.Bounds.{
  size_of, IsValid, store-IsValid, inflight-store,
}
use crime_prevention_and_per.Api.StampedCache.Turns.{enter-entries, enter-limits}

module _ {ℓ κ} {K : Type ℓ} {V : Type κ} ⦃e : Hashable K⦄ (size : V → ℕ) where
  pub enter-IsValid :
      (c : Cache K V) (k : K) (stamp : Option String) (cacheable : Bool)
      → IsValid size c
      → IsValid size (enter c k stamp cacheable).1
  enter-IsValid c k stamp cacheable h =
      let (m, b, n) = enter-limits c k stamp cacheable in
      let light = h.light in
      elim (enter-entries c k stamp cacheable) [
        | inl p ↦ record {
          positive = rw m h.positive;
          distinct = rw p h.distinct;
          counted = rw p (n ∙ h.counted);
          light = omega arith;
          few = rw (p, m) h.few;
        }
        | inr p ↦ record {
          positive = rw m h.positive;
          distinct = rw p (IsDistinct-move_to_end k c.entries h.distinct);
          counted = rw p (n ∙ h.counted ∙ sym (weight-move_to_end (size_of size) k c.entries));
          light = omega arith;
          few = rw (p, m, length-move_to_end k c.entries) h.few;
        }
      ]

  -- Only the counters and the table of Futures differ.
  IsValid-counters :
      (c d : Cache K V)
      → d.entries ≡ c.entries
      → d.bytes ≡ c.bytes
      → d.max_entries ≡ c.max_entries
      → d.max_bytes ≡ c.max_bytes
      → IsValid size c
      → IsValid size d
  IsValid-counters c d p b m n h =
      let light = h.light in
      record {
        positive = rw m h.positive;
        distinct = rw p h.distinct;
        counted = rw p (b ∙ h.counted);
        light = omega arith;
        few = rw (p, m) h.few;
      }

  pub complete-IsValid :
      (c : Cache K V) (k : K) (stamp : String) (v : V)
      → IsValid size c
      → IsValid size (complete size c k stamp v)
  unfolding complete
  complete-IsValid c k stamp v h =
      let d = record c { misses = c.misses + 1 } in
      let stored = store size d k stamp v in
      let held = store-IsValid size d k stamp v (IsValid-counters c d refl refl refl refl h) in
      IsValid-counters stored (give_up stored k stamp) refl refl refl refl held

  pub follow-IsValid : (c : Cache K V) → IsValid size c → IsValid size (follow c)
  unfolding follow
  follow-IsValid c h = IsValid-counters c (follow c) refl refl refl refl h

  pub give_up-IsValid :
      (c : Cache K V) (k : K) (stamp : String) → IsValid size c → IsValid size (give_up c k stamp)
  unfolding give_up
  give_up-IsValid c k stamp h = IsValid-counters c (give_up c k stamp) refl refl refl refl h

  pub inflight-complete :
      (c : Cache K V) (k : K) (stamp : String) (v : V)
      → (complete size c k stamp v).inflight ≡ remove (k, stamp) c.inflight
  unfolding complete
  inflight-complete c k stamp v =
      ap (remove (k, stamp)) (inflight-store size (record c { misses = c.misses + 1 }) k stamp v)

  pub inflight-give_up :
      (c : Cache K V) (k : K) (stamp : String)
      → (give_up c k stamp).inflight ≡ remove (k, stamp) c.inflight
  unfolding give_up
  inflight-give_up c k stamp = refl

  pub inflight-follow : (c : Cache K V) → (follow c).inflight ≡ c.inflight
  unfolding follow
  inflight-follow c = refl
