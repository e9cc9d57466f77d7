-- ===== src/Api/StampedCache/Bounds.antt =====
-- The cache's two budgets, and its count of bytes.
use crime_prevention_and_per.Prelude.{
  ltb, leb, Bool-cases, Option-cases, length, drop, Hashable, String_eq, ℕ, suc, ◌+◌, ◌-◌, ◌≤◌, ◌<◌,
  String, ◌≡◌, refl, sym, subst, inl, inr, ◌||◌, none, some, [], ◌∷◌, arith,
}
use crime_prevention_and_per.OrderedDict.{
  IsDistinct-remove, IsDistinct-put, lookup-remove_self, length-remove-le, remove_absent,
  length-put-le, put_absent, lookup-drop, IsDistinct-drop, lookup, remove, put, Dict, IsDistinct,
}
use crime_prevention_and_per.OrderedDict.Entries.{
  weight, Entries, weight-remove, Entries-remove, Entries-drop, Entries-put, weight-append_one,
}
use crime_prevention_and_per.Api.StampedCache.{Cache, make_space, drop_stale, store}

abbrev pub size_of {ℓ} : {V : Type ℓ} → (V → ℕ) → String × V → ℕ
size_of size x = size x.1

module _ {ℓ κ} {K : Type ℓ} {V : Type κ} (size : V → ℕ) where
  -- What the eviction loop keeps is the end of the list, and it fits beside `n` bytes more.
  pub make_space-drop :
      (most room n : ℕ) (d : Dict K (String × V)) (bytes : ℕ)
      → (make_space size most room n d bytes).0 ≡ drop (make_space size most room n d bytes).2 d
  unfolding make_space
  make_space-drop most room n [] bytes = refl
  make_space-drop most room n ((k, (s, v)) ∷ d) bytes =
      elim (Bool-cases (leb most (suc (length d)) || ltb room (bytes + n))) [
        | inl p ↦
            let x = (make_space size most room n d (bytes - size v)).2 in
            let e : x + 1 ≡ suc x = omega arith in
            rw p (rw e (make_space-drop most room n d (bytes - size v)))
        | inr p ↦ rw p refl
      ]

  pub make_space-fits :
      (most room n : ℕ) (d : Dict K (String × V)) (bytes : ℕ)
      → 1 ≤ most
      → n ≤ room
      → bytes ≡ weight (size_of size) d
      → let (kept, left, evicted) = make_space size most room n d bytes in
        (left ≡ weight (size_of size) kept) × (left + n ≤ room) × (length kept < most)
  unfolding make_space
  make_space-fits most room n [] bytes h k w = (w, omega arith, omega arith)
  make_space-fits most room n ((k', (s, v)) ∷ d) bytes h k w =
      elim (Bool-cases (leb most (suc (length d)) || ltb room (bytes + n))) [
        | inl p ↦ rw p (make_space-fits most room n d (bytes - size v) h k (omega arith))
        | inr p ↦ rw p (w, ground arith, ground arith)
      ]

module _ {ℓ κ} {K : Type ℓ} {V : Type κ} ⦃e : Hashable K⦄ (size : V → ℕ) where
  pub record IsValid (c : Cache K V) : Type (ℓ ⊔ κ) where
    pub positive : 1 ≤ c.max_entries
    pub distinct : IsDistinct c.entries
    pub counted : c.bytes ≡ weight (size_of size) c.entries
    pub light : c.bytes ≤ c.max_bytes
    pub few : length c.entries ≤ c.max_entries

  drop_stale_miss : (c : Cache K V) (k : K) → lookup k c.entries ≡ none → drop_stale size c k ≡ c
  unfolding drop_stale
  drop_stale_miss c k p = ground arith

  drop_stale_hit :
      (c : Cache K V) (k : K) (x : String × V)
      → lookup k c.entries ≡ some x
      → drop_stale size c k
        ≡ record c { entries = remove k c.entries; bytes = c.bytes - size_of size x }
  unfolding drop_stale
  drop_stale_hit c k x p = ground arith

  drop_stale-entries : (c : Cache K V) (k : K) → (drop_stale size c k).entries ≡ remove k c.entries
  drop_stale-entries c k = elim (Option-cases (lookup k c.entries)) [
    | inl p ↦ rw (drop_stale_miss c k p) (sym (remove_absent k c.entries p))
    | inr (x, p) ↦ rw (drop_stale_hit c k x p) refl
  ]

  drop_stale-limits :
      (c : Cache K V) (k : K)
      → ((drop_stale size c k).max_entries ≡ c.max_entries)
        × ((drop_stale size c k).max_bytes ≡ c.max_bytes)
  unfolding drop_stale
  drop_stale-limits c k = ground arith

  drop_stale-bytes :
      (c : Cache K V) (k : K)
      → c.bytes ≡ weight (size_of size) c.entries
      → (drop_stale size c k).bytes ≡ weight (size_of size) (drop_stale size c k).entries
  drop_stale-bytes c k w = elim (Option-cases (lookup k c.entries)) [
    | inl p ↦ rw (drop_stale_miss c k p) w
    | inr (x, p) ↦
        rw (drop_stale_hit c k x p) (omega (arith, w, weight-remove (size_of size) k x c.entries p))
  ]

  drop_stale-bytes_le : (c : Cache K V) (k : K) → (drop_stale size c k).bytes ≤ c.bytes
  unfolding drop_stale
  drop_stale-bytes_le c k = ground arith

  drop_stale-IsValid : (c : Cache K V) (k : K) → IsValid c → IsValid (drop_stale size c k)
  drop_stale-IsValid c k h =
      let (m, b) = drop_stale-limits c k in
      let es = drop_stale-entries c k in
      record {
        positive = rw m h.positive;
        distinct = rw es (IsDistinct-remove k c.entries h.distinct);
        counted = drop_stale-bytes c k h.counted;
        light = let p = h.light in omega (arith, b, drop_stale-bytes_le c k);
        few = let p = h.few in rw es (omega (arith, m, length-remove-le k c.entries));
      }

  -- The new entry goes to the end of what is kept, if it fits at all.
  abbrev admitted : Cache K V → K → String → V → Cache K V
  admitted c k stamp value =
      let (kept, bytes, evicted) =
        make_space size c.max_entries c.max_bytes (size value) c.entries c.bytes in
      record c {
        entries = put k (stamp, value) kept;
        bytes = bytes + size value;
        evictions = c.evictions + evicted;
      }

  admitted-IsValid :
      (c : Cache K V) (k : K) (stamp : String) (value : V)
      → lookup k c.entries ≡ none
      → size value ≤ c.max_bytes
      → IsValid c
      → IsValid (admitted c k stamp value)
  admitted-IsValid c k stamp value free fits h =
      let (counted, light, few) =
        make_space-fits size c.max_entries c.max_bytes (size value) c.entries c.bytes h.positive
          fits h.counted in
      let room = make_space size c.max_entries c.max_bytes (size value) c.entries c.bytes in
      let tail = make_space-drop size c.max_entries c.max_bytes (size value) c.entries c.bytes in
      let absent : lookup k room.0 ≡ none =
        subst (λ d. lookup k d ≡ none) (sym tail) (lookup-drop room.2 k c.entries free) in
      let apart : IsDistinct room.0 =
        subst (λ d. IsDistinct d) (sym tail) (IsDistinct-drop room.2 c.entries h.distinct) in
      record {
        positive = h.positive;
        distinct = IsDistinct-put k (stamp, value) room.0 apart;
        counted =
            rw (put_absent k (stamp, value) room.0 absent)
              (omega (arith, weight-append_one (size_of size) k (stamp, value) room.0, counted));
        light = light;
        few = omega (arith, length-put-le k (stamp, value) room.0, few);
      }

  pub store-IsValid :
      (c : Cache K V) (k : K) (stamp : String) (value : V)
      → IsValid c
      → IsValid (store size c k stamp value)
  unfolding store
  store-IsValid c k stamp value h =
      let d = drop_stale size c k in
      let v = drop_stale-IsValid c k h in
      let free : lookup k d.entries ≡ none =
        rw (drop_stale-entries c k) (lookup-remove_self k c.entries h.distinct) in
      elim (Bool-cases (ltb d.max_bytes (size value))) [
        | inl big ↦ rw big v
        | inr fits ↦ rw fits (admitted-IsValid d k stamp value free (ground arith) v)
      ]

  pub inflight-store :
      (c : Cache K V) (k : K) (stamp : String) (value : V)
      → (store size c k stamp value).inflight ≡ c.inflight
  unfolding store
  inflight-store c k stamp value = ground arith

  -- What holds of the old entries and of the new one holds of all that are left.
  pub Entries-store {μ} :
      (P : K → String × V → Type μ) (c : Cache K V) (k : K) (stamp : String) (value : V)
      → P k (stamp, value)
      → Entries P c.entries
      → Entries P (store size c k stamp value).entries
  unfolding store
  Entries-store P c k stamp value h t =
      let d = drop_stale size c k in
      let rest : Entries P d.entries =
        rw (drop_stale-entries c k) (Entries-remove P k c.entries t) in
      let room = make_space size d.max_entries d.max_bytes (size value) d.entries d.bytes in
      let tail = make_space-drop size d.max_entries d.max_bytes (size value) d.entries d.bytes in
      let left : Entries P room.0 =
        subst (λ x. Entries P x) (sym tail) (Entries-drop P room.2 d.entries rest) in
      elim (Bool-cases (ltb d.max_bytes (size value))) [
        | inl big ↦ rw big rest
        | inr fits ↦ rw fits (Entries-put P k (stamp, value) room.0 h left)
      ]
