-- ===== src/Prelude/Equality.antt =====
-- Equality tests as an interface, for the program's hashable keys.
use Prim.Native.Nat.{ℕ}
use Prim.Native.String.{String}
use mathlib.Core.Path.{◌≡◌}
use mathlib.Core.Logic.{◌↔◌}
use mathlib.Core.Bool.{Bool, true, ◌&&◌}
use native.Mathlib.Omega.{arith}
use mathlib.Core.List.{List}
use text.Mathlib.Text.{◌==◌ as str_eq}
use text.Mathlib.TextEquality.{eq_iff}
use crime_prevention_and_per.Prelude.Lists.{any}
use crime_prevention_and_per.Prelude.Tests.{nat_eq, nat_eq_iff}

-- A key's `__eq__`, which agrees with equality.
pub record Hashable {ℓ} (K : Type ℓ) : Type ℓ where
  pub same : K → K → Bool
  pub same_iff : (j k : K) → (same j k ≡ true) ↔ (j ≡ k)

module _ {ℓ κ} {J : Type ℓ} {K : Type κ} (e : Hashable J) (f : Hashable K) where
  -- Pairs compare by their parts, as Python's tuples do.
  abbrev pub pair_same : J × K → J × K → Bool
  pair_same p q = e.same p.0 q.0 && f.same p.1 q.1

  pub pair_same_iff : (p q : J × K) → (pair_same p q ≡ true) ↔ (p ≡ q)
  pair_same_iff (a, b) (c, d) = ground (arith, e.same_iff a c, f.same_iff b d)

instance abbrev pub pair_eq {ℓ κ} :
    {J : Type ℓ} {K : Type κ} ⦃e : Hashable J⦄ ⦃f : Hashable K⦄ → Hashable (J × K)
pair_eq ⦃e⦄ ⦃f⦄ = record { same = pair_same e f; same_iff = pair_same_iff e f }

instance abbrev pub ℕ_eq : Hashable ℕ
ℕ_eq = record { same = nat_eq; same_iff = nat_eq_iff }

instance abbrev pub String_eq : Hashable String
String_eq = record { same = str_eq; same_iff = eq_iff }

infix 50 ◌==◌
abbrev pub ◌==◌ {ℓ} : {K : Type ℓ} ⦃h : Hashable K⦄ → K → K → Bool
◌==◌ ⦃h⦄ j k = h.same j k

-- `k in keys`
abbrev pub elem {ℓ} : {K : Type ℓ} ⦃h : Hashable K⦄ → K → List K → Bool
elem k keys = any (λ j. j == k) keys
