-- ===== src/Routing/TtlCache/Bounds.antt =====
-- The cache stays within its size, and a new entry pushes out the least recently used ones.
use crime_prevention_and_per.Prelude.{
  length, drop, length-append, length-drop, Hashable, ℕ, suc, ◌+◌, ◌-◌, ◌≤◌, ◌<◌, ◌≡◌, sym, ap,
  subst, ◌∙◌, some, List, [], ◌∷◌, ◌++◌, arith,
}
use crime_prevention_and_per.OrderedDict.{
  IsDistinct-remove, IsDistinct-append_one, lookup-remove_self, IsDistinct-move_to_end,
  length-remove-le, length-move_to_end, put_absent, lookup-drop, IsDistinct-drop, make_room_lem,
  make_room-count, make_room, remove, put, Dict, IsDistinct,
}
use crime_prevention_and_per.Routing.TtlCache.{
  TtlCache, Outcome, cancelled, raised, returned, init, get, set, clear, get_or_create, unflight,
  settle,
}

-- One call of a method, with the clock's reading.
pub data Call {ℓ κ} (K : Type ℓ) (V : Type κ) : Type (ℓ ⊔ κ) where
  get_one : K → ℕ → Call K V
  set_one : K → V → ℕ → Call K V
  clear_all : Call K V
  ask : K → ℕ → Call K V
  done : K → ℕ → Outcome V → ℕ → Call K V

module _ {ℓ κ} {K : Type ℓ} {V : Type κ} ⦃e : Hashable K⦄ where
  pub record IsValid (c : TtlCache K V) : Type (ℓ ⊔ κ) where
    pub positive : 0 < c.maxsize
    pub bounded : length c.entries ≤ c.maxsize
    pub distinct : IsDistinct c.entries

  -- On a valid cache `set` leaves the most recently used of the other entries, in their order, as
  -- many as fit beside the new one, and then the new one, which expires `ttl` after the clock's
  -- reading.
  pub set-entries :
      (c : TtlCache K V) (k : K) (v : V) (now : ℕ)
      → IsValid c
      → let others = remove k c.entries in
        (set c k v now).entries
        ≡ drop (length others - (c.maxsize - 1)) others ++ (k, (now + c.ttl, v)) ∷ []
  unfolding set
  set-entries c k v now h =
      let size = c.maxsize - 1 in
      let e : c.maxsize ≡ suc size = let p = h.positive in omega arith in
      let others = remove k c.entries in
      let gone = lookup-remove_self k c.entries h.distinct in
      ap (λ d. put k (now + c.ttl, v) d) (kept-eq-drop e others)
      ∙ put_absent k (now + c.ttl, v) (drop (length others - size) others)
          (lookup-drop (length others - size) k others gone)
    where
      kept-eq-drop :
          c.maxsize ≡ suc (c.maxsize - 1)
          → (d : Dict K (ℕ × V)) → (make_room c.maxsize d).0 ≡ drop (length d - (c.maxsize - 1)) d
      kept-eq-drop p d =
          subst (λ m. (make_room m d).0 ≡ drop (length d - (c.maxsize - 1)) d) (sym p)
            (make_room_lem (c.maxsize - 1) d
              ∙ ap (λ n. drop n d) (make_room-count (c.maxsize - 1) d))

  pub set-IsValid :
      (c : TtlCache K V) (k : K) (v : V) (now : ℕ) → IsValid c → IsValid (set c k v now)
  unfolding set
  set-IsValid c k v now h =
      let size = c.maxsize - 1 in
      let others = remove k c.entries in
      let kept = drop (length others - size) others in
      let gone = lookup-remove_self k c.entries h.distinct in
      record {
        positive = h.positive;
        bounded = rw (set-entries c k v now h) (
            let p = h.positive in
            omega (
              arith,
              length-append kept ((k, (now + c.ttl, v)) ∷ []),
              length-drop (length others - size) others,
            ));
        distinct = rw (set-entries c k v now h) (
            IsDistinct-append_one k (now + c.ttl, v) kept
              (IsDistinct-drop (length others - size) others
                (IsDistinct-remove k c.entries h.distinct))
              (lookup-drop (length others - size) k others gone));
      }

  get-IsValid : (c : TtlCache K V) (k : K) (now : ℕ) → IsValid c → IsValid (get c k now).1
  unfolding get
  get-IsValid c k now h = record {
    positive = let p = h.positive in ground arith;
    bounded =
        let p = h.bounded in
        ground (arith, length-remove-le k c.entries, length-move_to_end k c.entries);
    distinct = ground (
      arith,
      IsDistinct-remove k c.entries h.distinct,
      IsDistinct-move_to_end k c.entries h.distinct,
      h.distinct,
    );
  }

  -- Counting, and the tasks in flight, touch no entry.
  abbrev SameEntries : TtlCache K V → TtlCache K V → Type (ℓ ⊔ κ)
  SameEntries c d = (d.entries ≡ c.entries) × (d.maxsize ≡ c.maxsize)

  IsValid-SameEntries : (c d : TtlCache K V) → SameEntries c d → IsValid c → IsValid d
  IsValid-SameEntries c d (p, q) h = record {
    positive = rw q h.positive;
    bounded = rw (p, q) h.bounded;
    distinct = rw p h.distinct;
  }

  get_or_create-SameEntries :
      (c : TtlCache K V) (k : K) (now : ℕ) → SameEntries (get c k now).1 (get_or_create c k now).1
  unfolding get_or_create
  get_or_create-SameEntries c k now = ground arith

  unflight-SameEntries : (c : TtlCache K V) (k : K) (t : ℕ) → SameEntries c (unflight c k t)
  unfolding unflight
  unflight-SameEntries c k t = ground arith

  unfoldable pub step : TtlCache K V → Call K V → TtlCache K V
  step c (get_one k now) = (get c k now).1
  step c (set_one k v now) = set c k v now
  step c clear_all = clear c
  step c (ask k now) = (get_or_create c k now).1
  step c (done k t outcome now) = settle c k t outcome now

  unfoldable pub run : TtlCache K V → List (Call K V) → TtlCache K V
  run c [] = c
  run c (x ∷ xs) = run (step c x) xs

  settle-IsValid :
      (c : TtlCache K V) (k : K) (t : ℕ) (outcome : Outcome V) (now : ℕ)
      → IsValid c
      → IsValid (settle c k t outcome now)
  unfolding settle
  settle-IsValid c k t cancelled now h =
      IsValid-SameEntries c (unflight c k t) (unflight-SameEntries c k t) h
  settle-IsValid c k t raised now h =
      IsValid-SameEntries c (unflight c k t) (unflight-SameEntries c k t) h
  settle-IsValid c k t (returned v) now h =
      set-IsValid (unflight c k t) k v now
        (IsValid-SameEntries c (unflight c k t) (unflight-SameEntries c k t) h)

  pub step-IsValid : (c : TtlCache K V) (x : Call K V) → IsValid c → IsValid (step c x)
  unfolding step clear
  step-IsValid c (get_one k now) h = get-IsValid c k now h
  step-IsValid c (set_one k v now) h = set-IsValid c k v now h
  step-IsValid c clear_all h = record {
    positive = h.positive;
    bounded = let p = h.positive in omega arith;
    distinct = tt;
  }
  step-IsValid c (ask k now) h =
      IsValid-SameEntries (get c k now).1 (get_or_create c k now).1
        (get_or_create-SameEntries c k now) (get-IsValid c k now h)
  step-IsValid c (done k t outcome now) h = settle-IsValid c k t outcome now h

  pub run-IsValid : (c : TtlCache K V) (xs : List (Call K V)) → IsValid c → IsValid (run c xs)
  unfolding run
  run-IsValid c [] h = h
  run-IsValid c (x ∷ xs) h = run-IsValid (step c x) xs (step-IsValid c x h)

  init-IsValid : (maxsize ttl : ℕ) (c : TtlCache K V) → init maxsize ttl ≡ some c → IsValid c
  unfolding init
  init-IsValid maxsize ttl c p = record {
    positive = ground arith;
    bounded = ground arith;
    distinct = ground arith;
  }

  -- A cache that `__init__` accepts never holds more than `maxsize` entries, nor two for one key,
  -- whatever methods are called and tasks end after that, in any order.
  pub init-run-IsValid :
      (maxsize ttl : ℕ) (c : TtlCache K V) (xs : List (Call K V))
      → init maxsize ttl ≡ some c
      → IsValid (run c xs)
  init-run-IsValid maxsize ttl c xs p = run-IsValid c xs (init-IsValid maxsize ttl c p)
