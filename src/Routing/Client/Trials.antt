-- ===== src/Routing/Client/Trials.antt =====
-- Calls in flight, in any interleaving of their two turns.
use crime_prevention_and_per.Prelude.{
  ℕ, suc, ◌+◌, ◌<◌, ◌≡◌, refl, ◌⊎◌, inl, inr, false, Option, none, some, arith,
}
use crime_prevention_and_per.Routing.Errors.{RoutingError, status}
use crime_prevention_and_per.Routing.Breaker.{available, allow}
use crime_prevention_and_per.Routing.Client.{
  Client, Body, Reply, timeout, http_error, aborted, response, admit, finish,
}

-- A client, the number of calls whose request is out, and of those that came back with an answer or
-- a failure (all but the aborted ones).
pub record Flight : Type 0 where
  pub client : Client
  pub out : ℕ
  pub reported : ℕ

abbrev pub was_admitted : Option RoutingError → ℕ
was_admitted none = 1
was_admitted (some _) = 0

abbrev pub counts {ℓ} : {P : Type ℓ} → Reply P → ℕ
counts aborted = 0
counts _ = 1

module _ {ℓ} {P : Type ℓ} (error_for : ℕ → Body P → RoutingError) where
  -- A caller comes, or a request that is out ends. The clocks are read at each.
  pub data Step (f : Flight) : Flight → Type ℓ where
    begin :
        (mono utc : ℕ)
        → Step f (record {
          client = (admit f.client mono utc).1;
          out = f.out + was_admitted (admit f.client mono utc).0;
          reported = f.reported;
        })
    end :
        (n mono utc : ℕ) (reply : Reply P)
        → f.out ≡ suc n
        → Step f (record {
          client = (finish error_for f.client mono utc reply).1;
          out = n;
          reported = f.reported + counts reply;
        })

  pub data Reach (f : Flight) : Flight → Type ℓ where
    here : Reach f f
    next : {g h : Flight} → Reach f g → Step g h → Reach f h

  -- A trial is out only while a call is.
  abbrev IsLive : Flight → Type 0
  IsLive f = (f.client.breaker.trial_out ≡ false) ⊎ (0 < f.out)

  finish-no_trial :
      (c : Client) (mono utc : ℕ) (reply : Reply P)
      → (finish error_for c mono utc reply).1.breaker.trial_out ≡ false
  unfolding finish
  finish-no_trial c mono utc timeout = ground arith
  finish-no_trial c mono utc http_error = ground arith
  finish-no_trial c mono utc aborted = refl
  finish-no_trial c mono utc (response status body) = ground arith

  Step-IsLive : {f g : Flight} → Step f g → IsLive f → IsLive g
  unfolding admit
  Step-IsLive {f} (begin mono utc) h = ground arith
  Step-IsLive {f} (end n mono utc reply p) h = inl (finish-no_trial f.client mono utc reply)

  Reach-IsLive : {f g : Flight} → IsLive f → Reach f g → IsLive g
  Reach-IsLive h here = h
  Reach-IsLive h (next r s) = Step-IsLive s (Reach-IsLive h r)

  -- However calls overlap and end, from a breaker with no trial out: once no call is in flight, no
  -- trial is claimed, so that a breaker lets a call through whenever it says that it is available.
  -- A trial cannot be stranded by a timeout, a bad body, a cancellation or a spent budget.
  pub trial_returns :
      (c : Client) (f : Flight) (mono : ℕ)
      → c.breaker.trial_out ≡ false
      → Reach (record { client = c; out = 0; reported = 0 }) f
      → f.out ≡ 0
      → (allow f.client.breaker mono).0 ≡ available f.client.breaker mono
  unfolding allow available
  trial_returns c f mono h r z = elim (Reach-IsLive (inl h) r) [
    | inl t ↦ ground arith
    | inr l ↦ absurd (omega arith)
  ]
