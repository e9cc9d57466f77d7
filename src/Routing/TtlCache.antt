-- ===== src/Routing/TtlCache.antt =====
-- safety/routing/ttlcache.py: provider answers for a while, least recently used out first, and one
-- producer at a time for each key. Times are whole ticks of the monotonic clock. Keys are any type
-- with an equality test, values are any type. A task is a number: `asyncio.ensure_future` makes a
-- new object each time, so `next_task` counts them.
pub mod Bounds
pub mod Flight
pub mod Reads
use crime_prevention_and_per.Prelude.{
  ltb, leb, nat_eq, if◌then◌else◌, Hashable, ℕ, ◌+◌, Option, none, some, [],
}
use crime_prevention_and_per.OrderedDict.{make_room, lookup, remove, put, move_to_end, Dict}

pub record Stats : Type 0 where
  pub hits : ℕ
  pub misses : ℕ
  pub evictions : ℕ

pub record TtlCache {ℓ κ} (K : Type ℓ) (V : Type κ) : Type (ℓ ⊔ κ) where
  pub maxsize : ℕ
  pub ttl : ℕ
  pub entries : Dict K (ℕ × V)
  pub inflight : Dict K ℕ
  pub next_task : ℕ
  pub stats : Stats

-- How a producer's task ended.
pub data Outcome {ℓ} (V : Type ℓ) : Type ℓ where
  cancelled : Outcome V
  raised : Outcome V
  returned : V → Outcome V

-- What a caller of `get_or_create` awaits: a value at once, or a task, its own or another's.
pub data Answer {ℓ} (V : Type ℓ) : Type ℓ where
  value : V → Answer V
  joined : ℕ → Answer V
  started : ℕ → Answer V

-- `__init__`; a `maxsize` below 1 raises ValueError
unfoldable pub init {ℓ κ} : {K : Type ℓ} {V : Type κ} → ℕ → ℕ → Option (TtlCache K V)
init maxsize ttl =
    if ltb maxsize 1
    then none
    else some (record {
      maxsize = maxsize;
      ttl = ttl;
      entries = [];
      inflight = [];
      next_task = 0;
      stats = record { hits = 0; misses = 0; evictions = 0 };
    })

module _ {ℓ κ} {K : Type ℓ} {V : Type κ} ⦃e : Hashable K⦄ where
  -- `get`: an expired entry is dropped on the way past, a live one becomes the most recent
  unfoldable pub get : TtlCache K V → K → ℕ → Option V × TtlCache K V
  unfolding lookup
  get c k now = elim (lookup k c.entries) [
    | none ↦ (none, c)
    | some (expires, v) ↦
        if leb expires now
        then (none, record c { entries = remove k c.entries })
        else (some v, record c { entries = move_to_end k c.entries })
  ]

  -- `set`: room is made among the other entries, and the new one goes to the end
  unfoldable pub set : TtlCache K V → K → V → ℕ → TtlCache K V
  set c k v now =
      let (kept, evicted) = make_room c.maxsize (remove k c.entries) in
      record c {
        entries = put k (now + c.ttl, v) kept;
        stats = record c.stats { evictions = c.stats.evictions + evicted };
      }

  unfoldable pub clear : TtlCache K V → TtlCache K V
  clear c = record c { entries = [] }

  abbrev hit : TtlCache K V → TtlCache K V
  hit c = record c { stats = record c.stats { hits = c.stats.hits + 1 } }

  -- `get_or_create` up to its `await`: it runs to there in one go on the event loop
  unfoldable pub get_or_create : TtlCache K V → K → ℕ → Answer V × TtlCache K V
  unfolding get
  get_or_create c k now =
      let (found, c') = get c k now in
      elim found [
        | some v ↦ (value v, hit c')
        | none ↦ elim (lookup k c'.inflight) [
          | some t ↦ (joined t, hit c')
          | none ↦ (
            started c'.next_task,
            record c' {
              inflight = put k c'.next_task c'.inflight;
              next_task = c'.next_task + 1;
              stats = record c'.stats { misses = c'.stats.misses + 1 };
            },
          )
        ]
      ]

  -- `if self._inflight.get(key) is task: del self._inflight[key]`
  unfoldable pub unflight : TtlCache K V → K → ℕ → TtlCache K V
  unflight c k t = elim (lookup k c.inflight) [
    | none ↦ c
    | some u ↦ if nat_eq u t then record c { inflight = remove k c.inflight } else c
  ]

  -- `_settle`, when task `t`, made for key `k`, is done: only a returned value is stored
  unfoldable pub settle : TtlCache K V → K → ℕ → Outcome V → ℕ → TtlCache K V
  unfolding set unflight
  settle c k t cancelled now = unflight c k t
  settle c k t raised now = unflight c k t
  settle c k t (returned v) now = set (unflight c k t) k v now
