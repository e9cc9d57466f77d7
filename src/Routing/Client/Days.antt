-- ===== src/Routing/Client/Days.antt =====
-- The day's allowance, over calls in flight in any interleaving.
use crime_prevention_and_per.Prelude.{
  ℕ, suc, ◌+◌, ◌≤◌, ◌≡◌, refl, sym, subst, Option, none, some, arith,
}
use crime_prevention_and_per.Routing.Errors.{RoutingError, status}
use crime_prevention_and_per.Routing.Budget.{DailyBudget, today, charge, refund}
use crime_prevention_and_per.Routing.Budget.Days.{used_on}
use crime_prevention_and_per.Routing.Client.{
  Client, Body, Reply, timeout, http_error, aborted, response, take_budget, refund_budget, admit,
  finish,
}
use crime_prevention_and_per.Routing.Client.Trials.{Flight, was_admitted, counts, Step, begin, end}

module _ {ℓ} {P : Type ℓ} (error_for : ℕ → Body P → RoutingError) where
  unfoldable pub clock : {f g : Flight} → Step error_for f g → ℕ
  clock (begin mono utc) = utc
  clock (end n mono utc reply p) = utc

  -- Turns whose UTC clock stands in day `d`.
  pub data ReachOn (d : ℕ) (f : Flight) : Flight → Type ℓ where
    here : ReachOn d f f
    next :
        {g h : Flight}
        → ReachOn d f g
        → (s : Step error_for g h) → today (clock s) ≡ d
        → ReachOn d f h

-- `n` calls are charged on day `d`, within the limit.
abbrev Charged : ℕ → ℕ → ℕ → Option DailyBudget → Type 0
Charged d limit n none = ⊥
Charged d limit n (some b) = (b.limit ≡ limit) × (used_on d b ≡ n) × (n ≤ limit)

admit-Charged :
    (d limit n mono utc : ℕ) (c : Client) (b : DailyBudget)
    → c.budget ≡ some b
    → today utc ≡ d
    → Charged d limit n (some b)
    → Charged d limit (n + was_admitted (admit c mono utc).0) (admit c mono utc).1.budget
unfolding admit take_budget refund_budget charge refund
admit-Charged d limit n mono utc c b q t h = ground arith

finish-Charged {ℓ} :
    {P : Type ℓ} (error_for : ℕ → Body P → RoutingError) (d limit n mono utc : ℕ) (c : Client)
    (b : DailyBudget) (reply : Reply P)
    → c.budget ≡ some b
    → today utc ≡ d
    → Charged d limit (suc n) (some b)
    → Charged d limit (n + counts reply) (finish error_for c mono utc reply).1.budget
unfolding finish
finish-Charged error_for d limit n mono utc c b timeout q t h = ground arith
finish-Charged error_for d limit n mono utc c b http_error q t h = ground arith
finish-Charged error_for d limit n mono utc c b aborted q t h = ground arith
finish-Charged error_for d limit n mono utc c b (response status body) q t h = ground arith

-- A client with a charged budget has one.
budget_of :
    (d limit n : ℕ) (o : Option DailyBudget)
    → Charged d limit n o
    → (b : DailyBudget) × (o ≡ some b)
budget_of d limit n none h = absurd h
budget_of d limit n (some b) h = (b, refl)

within : (d limit n : ℕ) (o : Option DailyBudget) → Charged d limit n o → n ≤ limit
within d limit n none h = absurd h
within d limit n (some b) h = h.2

module _ {ℓ} {P : Type ℓ} (error_for : ℕ → Body P → RoutingError) (d limit : ℕ) where
  abbrev IsCharged : Flight → Type 0
  IsCharged f = Charged d limit (f.out + f.reported) f.client.budget

  Step-IsCharged :
      {f g : Flight} (s : Step error_for f g)
      → today (clock error_for s) ≡ d
      → IsCharged f
      → IsCharged g
  unfolding clock
  Step-IsCharged {f} (begin mono utc) t h =
      let (b, q) = budget_of d limit (f.out + f.reported) f.client.budget h in
      let a = was_admitted (admit f.client mono utc).0 in
      let sum : f.out + f.reported + a ≡ f.out + a + f.reported = omega arith in
      subst (λ n. Charged d limit n (admit f.client mono utc).1.budget) sum
        (admit-Charged d limit (f.out + f.reported) mono utc f.client b q t
          (subst (Charged d limit (f.out + f.reported)) q h))
  Step-IsCharged {f} (end n mono utc reply p) t h =
      let (b, q) = budget_of d limit (f.out + f.reported) f.client.budget h in
      let before : f.out + f.reported ≡ suc (n + f.reported) = omega arith in
      let after : n + f.reported + counts reply ≡ n + (f.reported + counts reply) = omega arith in
      subst (λ m. Charged d limit m (finish error_for f.client mono utc reply).1.budget) after
        (finish-Charged error_for d limit (n + f.reported) mono utc f.client b reply q t (
          subst (λ m. Charged d limit m (some b)) before
            (subst (Charged d limit (f.out + f.reported)) q h)))

  Reach-IsCharged : {f g : Flight} → IsCharged f → ReachOn error_for d f g → IsCharged g
  Reach-IsCharged h here = h
  Reach-IsCharged h (next r s t) = Step-IsCharged s t (Reach-IsCharged h r)

  -- On one UTC day, from a client with no call out and nothing charged yet, however calls overlap
  -- and end: the requests that are out and those that came back with an answer or a failure, timed
  -- out ones included, are together never more than the day's limit.
  pub calls-le-limit :
      (c : Client) (b : DailyBudget) (f : Flight)
      → c.budget ≡ some b
      → b.limit ≡ limit
      → used_on d b ≡ 0
      → ReachOn error_for d (record { client = c; out = 0; reported = 0 }) f
      → f.out + f.reported ≤ limit
  calls-le-limit c b f q l z r =
      within d limit (f.out + f.reported) f.client.budget
        (Reach-IsCharged (subst (Charged d limit (0 + 0)) (sym q) (l, omega arith, omega arith)) r)
