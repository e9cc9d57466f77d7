-- ===== src/Routing/TtlCache/Flight.antt =====
-- Single flight: the first miss for a key starts the producer, and everyone else waits for it.
use crime_prevention_and_per.Prelude.{
  Hashable, ℕ, ◌≡◌, refl, sym, ap, subst, ◌∙◌, Option, none, some, [], ◌∷◌, ◌++◌, arith,
}
use crime_prevention_and_per.OrderedDict.{
  IsDistinct-remove, IsDistinct-append_one, put_absent, lookup, remove, Dict, IsDistinct,
}
use crime_prevention_and_per.Routing.TtlCache.{
  TtlCache, Outcome, cancelled, raised, returned, Answer, value, joined, started, get, set, clear,
  get_or_create, settle,
}

-- The cache, and the producers that the event loop is running: key and task, oldest first.
pub record Loop {ℓ κ} (K : Type ℓ) (V : Type κ) : Type (ℓ ⊔ κ) where
  pub cache : TtlCache K V
  pub running : Dict K ℕ

-- What a caller gets: the cached value, else the task that is running for its key, else a new one.
abbrev pub expected {ℓ} : {V : Type ℓ} → Option V → Option ℕ → ℕ → Answer V
expected (some v) _ _ = value v
expected none (some t) _ = joined t
expected none none fresh = started fresh

module _ {ℓ κ} {K : Type ℓ} {V : Type κ} ⦃e : Hashable K⦄ where
  abbrev pub began : K → Answer V → Dict K ℕ → Dict K ℕ
  began k (started t) running = running ++ (k, t) ∷ []
  began k _ running = running

  -- What can happen next: a plain read or write, a caller, or the end of a running producer, by
  -- return, by an exception or by cancellation. Each is one turn of the event loop.
  pub data Step (w : Loop K V) : Loop K V → Type (ℓ ⊔ κ) where
    read : (k : K) (now : ℕ) → Step w (record w { cache = (get w.cache k now).1 })
    write : (k : K) (v : V) (now : ℕ) → Step w (record w { cache = set w.cache k v now })
    wipe : Step w (record w { cache = clear w.cache })
    call :
        (k : K) (now : ℕ)
        → Step w (record {
          cache = (get_or_create w.cache k now).1;
          running = began k (get_or_create w.cache k now).0 w.running;
        })
    finish :
        (k : K) (t : ℕ) (outcome : Outcome V) (now : ℕ)
        → lookup k w.running ≡ some t
        → Step w (record { cache = settle w.cache k t outcome now; running = remove k w.running })

  pub data Reach (w : Loop K V) : Loop K V → Type (ℓ ⊔ κ) where
    here : Reach w w
    next : {u x : Loop K V} → Reach w u → Step u x → Reach w x

  inflight-get : (c : TtlCache K V) (k : K) (now : ℕ) → (get c k now).1.inflight ≡ c.inflight
  unfolding get
  inflight-get c k now = ground arith

  inflight-settle :
      (c : TtlCache K V) (k : K) (t : ℕ) (outcome : Outcome V) (now : ℕ)
      → lookup k c.inflight ≡ some t
      → (settle c k t outcome now).inflight ≡ remove k c.inflight
  unfolding settle
  inflight-settle c k t cancelled now p = ground arith
  inflight-settle c k t raised now p = ground arith
  inflight-settle c k t (returned v) now p = ground arith

  get_or_create-expected :
      (c : TtlCache K V) (k : K) (now : ℕ)
      → (get_or_create c k now).0 ≡ expected (get c k now).0 (lookup k c.inflight) c.next_task
  unfolding get_or_create
  get_or_create-expected c k now = ground (arith, inflight-get c k now)

  -- The cache's table of tasks is the producers that run, each key once.
  abbrev IsTracked : Loop K V → Type ℓ
  IsTracked w = (w.running ≡ w.cache.inflight) × IsDistinct w.running

  inflight-get_or_create :
      (c : TtlCache K V) (k : K) (now : ℕ)
      → (get_or_create c k now).1.inflight ≡ began k (get_or_create c k now).0 c.inflight
  unfolding get_or_create
  inflight-get_or_create c k now =
      ground (arith, inflight-get c k now, put_absent k (get c k now).1.next_task c.inflight)

  IsDistinct-began :
      (c : TtlCache K V) (k : K) (now : ℕ)
      → IsDistinct c.inflight
      → IsDistinct (began k (get_or_create c k now).0 c.inflight)
  unfolding get_or_create
  IsDistinct-began c k now d =
      ground (
        arith,
        inflight-get c k now,
        IsDistinct-append_one k (get c k now).1.next_task c.inflight d,
      )

  inflight-set :
      (c : TtlCache K V) (k : K) (v : V) (now : ℕ) → (set c k v now).inflight ≡ c.inflight
  unfolding set
  inflight-set c k v now = refl

  inflight-clear : (c : TtlCache K V) → (clear c).inflight ≡ c.inflight
  unfolding clear
  inflight-clear c = refl

  Step-IsTracked : {w x : Loop K V} → Step w x → IsTracked w → IsTracked x
  Step-IsTracked {w} (read k now) (p, d) = (p ∙ sym (inflight-get w.cache k now), d)
  Step-IsTracked {w} (write k v now) (p, d) = (p ∙ sym (inflight-set w.cache k v now), d)
  Step-IsTracked {w} wipe (p, d) = (p ∙ sym (inflight-clear w.cache), d)
  Step-IsTracked {w} (call k now) (p, d) = (
    ap (began k (get_or_create w.cache k now).0) p ∙ sym (inflight-get_or_create w.cache k now),
    subst (λ r. IsDistinct (began k (get_or_create w.cache k now).0 r)) (sym p)
        (IsDistinct-began w.cache k now (subst IsDistinct p d)),
  )
  Step-IsTracked {w} (finish k t outcome now r) (p, d) = (
    ap (remove k) p ∙ sym (inflight-settle w.cache k t outcome now (sym (ap (lookup k) p) ∙ r)),
    IsDistinct-remove k w.running d,
  )

  Reach-IsTracked : {w x : Loop K V} → IsTracked w → Reach w x → IsTracked x
  Reach-IsTracked h here = h
  Reach-IsTracked h (next r s) = Step-IsTracked s (Reach-IsTracked h r)

  -- From a cache with nothing in flight, in every state that reads, writes, callers and ending
  -- producers lead to, at most one producer runs for each key, and a caller gets the live value if
  -- there is one, else waits for the producer that runs for its key, and starts one only if none
  -- does: also after a producer that raised or was cancelled.
  pub single_flight :
      (c : TtlCache K V) (w : Loop K V) (k : K) (now : ℕ)
      → c.inflight ≡ []
      → Reach (record { cache = c; running = [] }) w
      → IsDistinct w.running
        × ((get_or_create w.cache k now).0
            ≡ expected (get w.cache k now).0 (lookup k w.running) w.cache.next_task)
  single_flight c w k now idle r =
      let (p, d) = Reach-IsTracked (sym idle, tt) r in
      (
        d,
        get_or_create-expected w.cache k now
            ∙ ap (λ q. expected (get w.cache k now).0 q w.cache.next_task) (sym (ap (lookup k) p)),
      )
