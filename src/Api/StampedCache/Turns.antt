-- ===== src/Api/StampedCache/Turns.antt =====
-- The cache under threads that interleave at the lock.
use crime_prevention_and_per.Prelude.{
  if◌then◌else◌, Hashable, pair_eq, String_eq, ◌==◌, ℕ, String, ◌≡◌, refl, ◌⊎◌, inl, Bool, true,
  false, Option, none, some, [], ◌∷◌, ◌++◌, arith,
}
use crime_prevention_and_per.OrderedDict.{
  IsDistinct-append_one, put_absent, lookup, remove, move_to_end, Dict, IsDistinct,
}
use crime_prevention_and_per.Api.StampedCache.{
  Cache, Plan, serve, follow_one, lead, enter, follow, give_up, complete,
}

-- The cache, and the leaders whose producer runs: key and stamp, with their Future.
pub record Threads {ℓ κ} (K : Type ℓ) (V : Type κ) : Type (ℓ ⊔ κ) where
  pub cache : Cache K V
  pub leaders : Dict (K × String) ℕ

abbrev pub began {ℓ κ} :
    {K : Type ℓ} {V : Type κ}
    → Plan V
    → K
    → Option String
    → Dict (K × String) ℕ
    → Dict (K × String) ℕ
began (lead t) k (some stamp) leaders = leaders ++ ((k, stamp), t) ∷ []
began _ _ _ leaders = leaders

-- The value of an entry whose stamp still stands.
abbrev pub live {ℓ} : {V : Type ℓ} → String → Option (String × V) → Option V
live stamp none = none
live stamp (some (s, v)) = if s == stamp then some v else none

-- What a caller should do: take the live value, else wait for the leader, else lead.
abbrev pub planned {ℓ} : {V : Type ℓ} → Option V → Option ℕ → ℕ → Plan V
planned (some v) _ _ = serve v
planned none (some t) _ = follow_one t
planned none none fresh = lead fresh

module _ {ℓ κ μ} {K : Type ℓ} {V : Type κ} ⦃e : Hashable K⦄ (size : V → ℕ)
    (P : K → String → V → Type μ) where
  -- One block under the lock: a caller comes, a follower counts itself, a leader's producer raises
  -- or returns a value. `P` is what holds of the values that producers return for a key and stamp.
  pub data Step (w : Threads K V) : Threads K V → Type (ℓ ⊔ κ ⊔ μ) where
    ask :
        (k : K) (stamp : Option String) (cacheable : Bool)
        → Step w (record {
          cache = (enter w.cache k stamp cacheable).1;
          leaders = began (enter w.cache k stamp cacheable).0 k stamp w.leaders;
        })
    wait : Step w (record w { cache = follow w.cache })
    fail :
        (k : K) (stamp : String) (t : ℕ)
        → lookup (k, stamp) w.leaders ≡ some t
        → Step w (record { cache = give_up w.cache k stamp; leaders = remove (k, stamp) w.leaders })
    finish :
        (k : K) (stamp : String) (t : ℕ) (v : V)
        → lookup (k, stamp) w.leaders ≡ some t
        → P k stamp v
        → Step w (record {
          cache = complete size w.cache k stamp v;
          leaders = remove (k, stamp) w.leaders;
        })

  pub data Reach (w : Threads K V) : Threads K V → Type (ℓ ⊔ κ ⊔ μ) where
    here : Reach w w
    next : {u x : Threads K V} → Reach w u → Step u x → Reach w x

module _ {ℓ κ} {K : Type ℓ} {V : Type κ} ⦃e : Hashable K⦄ where
  -- A caller leaves the entries as they are, or makes one of them the most recent.
  pub enter-entries :
      (c : Cache K V) (k : K) (stamp : Option String) (cacheable : Bool)
      → ((enter c k stamp cacheable).1.entries ≡ c.entries)
        ⊎ ((enter c k stamp cacheable).1.entries ≡ move_to_end k c.entries)
  unfolding enter
  enter-entries c k stamp false = inl refl
  enter-entries c k none true = inl refl
  enter-entries c k (some stamp) true = ground arith

  pub enter-limits :
      (c : Cache K V) (k : K) (stamp : Option String) (cacheable : Bool)
      → let c' = (enter c k stamp cacheable).1 in
        (c'.max_entries ≡ c.max_entries) × (c'.max_bytes ≡ c.max_bytes) × (c'.bytes ≡ c.bytes)
  unfolding enter
  enter-limits c k stamp false = (refl, refl, refl)
  enter-limits c k none true = (refl, refl, refl)
  enter-limits c k (some stamp) true = ground arith

  pub inflight-enter :
      (c : Cache K V) (k : K) (stamp : Option String) (cacheable : Bool)
      → IsDistinct c.inflight
      → let (plan, c') = enter c k stamp cacheable in
        (c'.inflight ≡ began plan k stamp c.inflight) × IsDistinct c'.inflight
  unfolding enter
  inflight-enter c k stamp false d = (refl, d)
  inflight-enter c k none true d = (refl, d)
  inflight-enter c k (some stamp) true d = ground (
    arith,
    put_absent (k, stamp) c.next_future c.inflight,
    IsDistinct-append_one (k, stamp) c.next_future c.inflight d,
  )

  pub enter-planned :
      (c : Cache K V) (k : K) (stamp : String)
      → (enter c k (some stamp) true).0
        ≡ planned (live stamp (lookup k c.entries)) (lookup (k, stamp) c.inflight) c.next_future
  unfolding enter
  enter-planned c k stamp = ground arith
