-- ===== src/Routing/TtlCache/Reads.antt =====
-- What a read returns after a write.
use crime_prevention_and_per.Prelude.{leb, if◌then◌else◌, Hashable, ℕ, ◌+◌, ◌≡◌, none, some, arith}
use crime_prevention_and_per.OrderedDict.{
  same_refl, lookup-put, lookup-remove_self, lookup-move_to_end, make_room, lookup, remove,
  IsDistinct,
}
use crime_prevention_and_per.Routing.TtlCache.{TtlCache, get, set}
use crime_prevention_and_per.Routing.TtlCache.Bounds.{IsValid, set-IsValid}

module _ {ℓ κ} {K : Type ℓ} {V : Type κ} ⦃e : Hashable K⦄ where
  lookup-set :
      (c : TtlCache K V) (k : K) (v : V) (now : ℕ)
      → lookup k (set c k v now).entries ≡ some (now + c.ttl, v)
  unfolding set
  lookup-set c k v now =
      rw (lookup-put k k (now + c.ttl, v) (make_room c.maxsize (remove k c.entries)).0)
        (rw (same_refl k))

  -- A value that was set is read back until the clock reaches the time of the write plus `ttl`;
  -- from then on the read finds nothing and drops the entry, so that no later read finds it either.
  pub get-set :
      (c : TtlCache K V) (k : K) (v : V) (now later : ℕ)
      → IsValid c
      → let (found, after) = get (set c k v now) k later in
        (found ≡ (if leb (now + c.ttl) later then none else some v))
        × (lookup k after.entries
            ≡ (if leb (now + c.ttl) later then none else some (now + c.ttl, v)))
  unfolding get
  get-set c k v now later h =
      let d = set c k v now in
      ground (
        arith,
        lookup-set c k v now,
        lookup-remove_self k d.entries distinct,
        lookup-move_to_end k k d.entries distinct,
      )
    where
      distinct : IsDistinct (set c k v now).entries
      distinct = (set-IsValid c k v now h).distinct
