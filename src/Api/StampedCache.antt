-- ===== src/Api/StampedCache.antt =====
-- safety/api/main.py, `_store` and `cached`: the map's layers, kept while their city's refresh
-- stamp stands, least recently used out first, within a budget of bytes, one producer at a time.
-- Each block under `_cache_lock` is one step: `enter`, then for a follower `follow`, for a leader
-- `complete` or `give_up`. The database's query runs between them, in other threads' company. A
-- Future is a number. Keys are any type with an equality test, values any type with a `size`
-- (`len`). `bytes` never falls below zero in Python, which IsValid's equation shows.
pub mod Blocks
pub mod Bounds
pub mod Threads
pub mod Turns
use crime_prevention_and_per.Prelude.{
  ltb, leb, if◌then◌else◌, length, Hashable, pair_eq, String_eq, ◌==◌, ℕ, suc, ◌+◌, ◌-◌, String,
  Bool, true, false, ◌||◌, Option, none, some, [], ◌∷◌,
}
use crime_prevention_and_per.OrderedDict.{lookup, remove, put, move_to_end, Dict}

pub record Cache {ℓ κ} (K : Type ℓ) (V : Type κ) : Type (ℓ ⊔ κ) where
  pub max_bytes : ℕ
  pub max_entries : ℕ
  pub entries : Dict K (String × V)
  pub inflight : Dict (K × String) ℕ
  pub next_future : ℕ
  pub hits : ℕ
  pub misses : ℕ
  pub bytes : ℕ
  pub evictions : ℕ

-- the module's state at import, and the two settings
unfoldable pub empty {ℓ κ} : {K : Type ℓ} {V : Type κ} → ℕ → ℕ → Cache K V
empty max_bytes max_entries = record {
  max_bytes = max_bytes;
  max_entries = max_entries;
  entries = [];
  inflight = [];
  next_future = 0;
  hits = 0;
  misses = 0;
  bytes = 0;
  evictions = 0;
}

-- What `cached` does next: call the producer with no cache, return a value, wait for a Future, or
-- build the value and set the Future that it has just registered.
pub data Plan {ℓ} (V : Type ℓ) : Type ℓ where
  bypass : Plan V
  serve : V → Plan V
  follow_one : ℕ → Plan V
  lead : ℕ → Plan V

module _ {ℓ κ} {K : Type ℓ} {V : Type κ} (size : V → ℕ) where
  -- The eviction loop of `_store`: what is kept, its bytes, and how many entries were evicted.
  unfoldable pub make_space : ℕ → ℕ → ℕ → Dict K (String × V) → ℕ → Dict K (String × V) × ℕ × ℕ
  make_space max_entries max_bytes n [] bytes = ([], bytes, 0)
  make_space max_entries max_bytes n ((k, (s, v)) ∷ d) bytes =
      let rest = make_space max_entries max_bytes n d (bytes - size v) in
      if leb max_entries (suc (length d)) || ltb max_bytes (bytes + n)
      then (rest.0, rest.1, rest.2 + 1)
      else ((k, (s, v)) ∷ d, bytes, 0)

module _ {ℓ κ} {K : Type ℓ} {V : Type κ} ⦃e : Hashable K⦄ (size : V → ℕ) where
  -- `stale = _cache.pop(key, None)`, with its bytes taken off
  unfoldable pub drop_stale : Cache K V → K → Cache K V
  unfolding lookup
  drop_stale c k = elim (lookup k c.entries) [
    | none ↦ c
    | some (s, v) ↦ record c { entries = remove k c.entries; bytes = c.bytes - size v }
  ]

  unfoldable pub store : Cache K V → K → String → V → Cache K V
  unfolding drop_stale make_space
  store c k stamp value =
      let c' = drop_stale c k in
      if ltb c'.max_bytes (size value)
      then c'
      else (let (kept, bytes, evicted) =
            make_space size c'.max_entries c'.max_bytes (size value) c'.entries c'.bytes in
          record c' {
            entries = put k (stamp, value) kept;
            bytes = bytes + size value;
            evictions = c'.evictions + evicted;
          })

module _ {ℓ κ} {K : Type ℓ} {V : Type κ} ⦃e : Hashable K⦄ where
  -- the lookup of `cached` under the lock
  unfoldable pub claim : Cache K V → K → String → Plan V × Cache K V
  claim c k stamp = elim (lookup (k, stamp) c.inflight) [
    | some t ↦ (follow_one t, c)
    | none ↦ (
      lead c.next_future,
      record c {
        inflight = put (k, stamp) c.next_future c.inflight;
        next_future = c.next_future + 1;
      },
    )
  ]

  unfoldable pub look : Cache K V → K → String → Plan V × Cache K V
  unfolding claim
  look c k stamp = elim (lookup k c.entries) [
    | none ↦ claim c k stamp
    | some (s, v) ↦
        if s == stamp
        then (serve v, record c { entries = move_to_end k c.entries; hits = c.hits + 1 })
        else claim c k stamp
  ]

  -- `cached` up to its first wait; no stamp is a city with no snapshot
  unfoldable pub enter : Cache K V → K → Option String → Bool → Plan V × Cache K V
  unfolding look
  enter c k stamp false = (bypass, c)
  enter c k none true = (bypass, c)
  enter c k (some stamp) true = look c k stamp

  -- a follower counts itself as a hit, then waits
  unfoldable pub follow : Cache K V → Cache K V
  follow c = record c { hits = c.hits + 1 }

  -- the leader's producer raised
  unfoldable pub give_up : Cache K V → K → String → Cache K V
  give_up c k stamp = record c { inflight = remove (k, stamp) c.inflight }

  -- the leader's producer returned
  unfoldable pub complete : (V → ℕ) → Cache K V → K → String → V → Cache K V
  unfolding store give_up
  complete size c k stamp value =
      give_up (store size (record c { misses = c.misses + 1 }) k stamp value) k stamp
