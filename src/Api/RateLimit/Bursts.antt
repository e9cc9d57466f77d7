-- ===== src/Api/RateLimit/Bursts.antt =====
-- How many requests of one client a zone lets through.
use crime_prevention_and_per.Prelude.{
  ltb, leb, if◌then◌else◌, ltb→lt, leb→le, Bool-cases, All, ◌==◌, String_eq, pair_same_iff, pair_eq,
  ℕ, suc, ◌+◌, ◌-◌, ◌*◌, ◌≤◌, ◌<◌, String, ◌≡◌, refl, sym, ap, subst, ◌∙◌, ◌⊎◌, inl, inr, Bool,
  true, false, ◌&&◌, Option, none, some, List, [], ◌∷◌, arith,
}
use crime_prevention_and_per.Api.RateLimit.{token, Buckets, max_tracked, bucket_of, refill, consume}
use crime_prevention_and_per.OrderedDict.{lookup, IsDistinct}
use crime_prevention_and_per.OrderedDict.Touch.{
  touch, Recent, lookup-Recent, Recent-touch_self, Recent-touch_ne, IsDistinct-touch,
}
use crime_prevention_and_per.Api.RateLimit.Bucket.{
  level, consume_refused, consume_allowed, tracked_level,
}

-- A limited request: the client and zone, the zone's settings, and the time.
pub record Request : Type 0 where
  pub key : String × String
  pub rate : ℕ
  pub capacity : ℕ
  pub now : ℕ

abbrev pub serve : Buckets → Request → Option (ℕ × ℕ) × Buckets
serve d q = consume d q.key q.rate q.capacity q.now

abbrev pub passed : Option (ℕ × ℕ) → ℕ
passed none = 1
passed (some _) = 0

module _ (key : String × String) where
  -- the requests of `key` that pass
  unfoldable pub allowed : Buckets → List Request → ℕ
  allowed d [] = 0
  allowed d (q ∷ qs) =
      let (wait, d') = serve d q in
      let rest = allowed d' qs in if key == q.key then passed wait + rest else rest

  -- Between two requests of `key`, counting on from `n`, there are fewer than 4096 others.
  unfoldable pub spaced : ℕ → List Request → Bool
  spaced n [] = true
  spaced n (q ∷ qs) =
      if key == q.key then spaced 0 qs else ltb (suc n) max_tracked && spaced (suc n) qs

  -- All requests of `key` have the settings of its zone.
  abbrev pub OfZone : ℕ → ℕ → List Request → Type 0
  OfZone rate capacity =
      All (λ q. (key == q.key) ≡ false ⊎ (q.rate ≡ rate) × (q.capacity ≡ capacity))

-- The times do not go back, from `start` to `end`.
abbrev pub InOrder : ℕ → ℕ → List Request → Type 0
InOrder start end [] = start ≤ end
InOrder start end (q ∷ qs) = (start ≤ q.now) × InOrder q.now end qs

InOrder-le : (start end : ℕ) (qs : List Request) → InOrder start end qs → start ≤ end
InOrder-le start end [] h = h
InOrder-le start end (q ∷ qs) h = omega (arith, h.0, InOrder-le q.now end qs h.1)

distributes : (r x y : ℕ) → x * r + r * y ≡ r * (x + y)
distributes r x y = omega arith

-- Time that passes in two parts refills as much as in one.
accrues : (r a b c : ℕ) → a ≤ b → b ≤ c → (b - a) * r + r * (c - b) ≡ r * (c - a)
accrues r a b c h k =
    let e : b - a + (c - b) ≡ c - a = omega arith in
    distributes r (b - a) (c - b) ∙ ap (λ n. r * n) e

refill-le :
    (tokens last rate capacity now : ℕ)
    → refill (tokens, last) rate capacity now ≤ tokens + (now - last) * rate
unfolding refill
refill-le tokens last rate capacity now = omega arith

refill-le-capacity :
    (b : ℕ × ℕ) (rate capacity now : ℕ) → refill b rate capacity now ≤ capacity * token
unfolding refill
refill-le-capacity b rate capacity now = omega arith

-- What a request of a client with `found` tokens leaves: a token less if it passes.
own_request :
    (d : Buckets) (key : String × String) (rate capacity now : ℕ)
    → let found = level d key rate capacity now in
      (left : ℕ) × ((consume d key rate capacity now).1 ≡ touch max_tracked key (left, now) d)
      × (passed (consume d key rate capacity now).0 * token + left ≡ found)
own_request d key rate capacity now =
    elim (Bool-cases (leb token (level d key rate capacity now))) [
      | inl enough ↦
          let found = level d key rate capacity now in
          let le = leb→le _ _ enough in
          let e = consume_allowed d key rate capacity now le in
          (
            found - token,
            ap (λ x. x.1) e,
            subst (λ x. passed x.0 * token + (found - token) ≡ found) (sym e) (omega arith),
          )
      | inr short ↦
          let found = level d key rate capacity now in
          let less : found < token = ground arith in
          let e = consume_refused d key rate capacity now less in
          (
            found,
            ap (λ x. x.1) e,
            subst (λ x. passed x.0 * token + found ≡ found) (sym e) (omega arith),
          )
    ]

consume-touch :
    (d : Buckets) (key : String × String) (rate capacity now : ℕ)
    → (b : ℕ × ℕ) × ((consume d key rate capacity now).1 ≡ touch max_tracked key b d)
consume-touch d key rate capacity now =
    let (left, e, counted) = own_request d key rate capacity now in ((left, now), e)

-- One request of the client, and the bound on those after it.
own_bound :
    (p rest left found tokens rate last now end : ℕ)
    → p * token + left ≡ found
    → found ≤ tokens + (now - last) * rate
    → rest * token ≤ left + rate * (end - now)
    → last ≤ now
    → now ≤ end
    → (p + rest) * token ≤ tokens + rate * (end - last)
own_bound p rest left found tokens rate last now end a b c d e =
    omega (arith, accrues rate last now end d e)

InOrder-weaken :
    (start later end : ℕ) (qs : List Request)
    → start ≤ later
    → InOrder later end qs
    → InOrder start end qs
InOrder-weaken start later end [] h o = omega arith
InOrder-weaken start later end (q ∷ qs) h o = (omega arith, o.1)

module _ (key : String × String) (rate capacity : ℕ) where
  serve_own :
      (d : Buckets) (x : Request)
      → (key == x.key) ≡ true
      → (key == x.key) ≡ false ⊎ (x.rate ≡ rate) × (x.capacity ≡ capacity)
      → serve d x ≡ consume d key rate capacity x.now
  serve_own d x own (inl other) = cc
  serve_own d x own (inr (r, c)) =
      let k = (pair_same_iff String_eq String_eq key x.key).0 own in rw (k, r, c) refl

  spaced_own :
      (n : ℕ) (x : Request) (xs : List Request)
      → (key == x.key) ≡ true
      → spaced key n (x ∷ xs) ≡ true
      → spaced key 0 xs ≡ true
  spaced_own n x xs own s = unfold spaced in rw own at s

  spaced_other :
      (n : ℕ) (x : Request) (xs : List Request)
      → (key == x.key) ≡ false
      → spaced key n (x ∷ xs) ≡ true
      → (suc n < max_tracked) × (spaced key (suc n) xs ≡ true)
  spaced_other n x xs other s =
      let t : (ltb (suc n) max_tracked && spaced key (suc n) xs) ≡ true =
        unfold spaced in (rw other at s) in
      (ltb→lt _ _ (ground arith), ground arith)

module _ (key : String × String) (rate capacity end : ℕ) where
  -- Once a client is tracked, its requests spend what it has and what accrues.
  tracked-allowed :
      (qs : List Request) (d : Buckets) (tokens last n : ℕ)
      → IsDistinct d
      → Recent key (tokens, last) n d
      → OfZone key rate capacity qs
      → InOrder last end qs
      → spaced key n qs ≡ true
      → allowed key d qs * token ≤ tokens + rate * (end - last)
  unfolding allowed
  tracked-allowed [] d tokens last n q r z o s = omega arith
  tracked-allowed (x ∷ xs) d tokens last n q r z o s = elim (Bool-cases (key == x.key)) [
    | inl own ↦
        let sv = serve_own key rate capacity d x own z.0 in
        let (left, e, counted) = own_request d key rate capacity x.now in
        let d' = touch max_tracked key (left, x.now) d in
        let rest =
          tracked-allowed xs d' left x.now 0 (IsDistinct-touch max_tracked key (left, x.now) d q)
            (Recent-touch_self max_tracked key (left, x.now) d (omega arith) q) z.1 o.1
            (spaced_own key rate capacity n x xs own s) in
        let found =
          subst (λ f. f ≤ tokens + (x.now - last) * rate)
            (sym (tracked_level d key (tokens, last) rate capacity x.now (lookup-Recent r)))
            (refill-le tokens last rate capacity x.now) in
        rw (own, sv, e)
          (own_bound (passed (consume d key rate capacity x.now).0) (allowed key d' xs) left
            (level d key rate capacity x.now) tokens rate last x.now end counted found rest o.0
            (InOrder-le x.now end xs o.1))
    | inr other ↦
        let (b, e) = consume-touch d x.key x.rate x.capacity x.now in
        let (room, rest) = spaced_other key rate capacity n x xs other s in
        rw (other, e)
          (tracked-allowed xs (touch max_tracked x.key b d) tokens last (suc n)
            (IsDistinct-touch max_tracked x.key b d q)
            (Recent-touch_ne max_tracked x.key b other room r) z.1
            (InOrder-weaken last x.now end xs o.0 o.1) rest)
  ]

  -- Of the requests that one client makes of a zone from its request `x` until `end`, the zone lets
  -- through at most its burst and what accrues at its rate in that time, whatever the buckets held
  -- before and whatever other clients do, as long as fewer than 4096 of their requests come between
  -- two of its own. Times do not go back.
  pub allowed-le-burst :
      (d : Buckets) (x : Request) (xs : List Request)
      → IsDistinct d
      → x.key ≡ key
      → OfZone key rate capacity (x ∷ xs)
      → InOrder x.now end (x ∷ xs)
      → spaced key 0 (x ∷ xs) ≡ true
      → allowed key d (x ∷ xs) * token ≤ capacity * token + rate * (end - x.now)
  unfolding allowed
  allowed-le-burst d x xs q k z o s =
      let own = (pair_same_iff String_eq String_eq key x.key).1 (sym k) in
      let sv = serve_own key rate capacity d x own z.0 in
      let (left, e, counted) = own_request d key rate capacity x.now in
      let d' = touch max_tracked key (left, x.now) d in
      let rest =
        tracked-allowed xs d' left x.now 0 (IsDistinct-touch max_tracked key (left, x.now) d q)
          (Recent-touch_self max_tracked key (left, x.now) d (omega arith) q) z.1 o.1
          (spaced_own key rate capacity 0 x xs own s) in
      let full = refill-le-capacity (bucket_of (lookup key d) capacity x.now) rate capacity x.now in
      rw (own, sv, e) (omega arith)
