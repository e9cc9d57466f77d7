-- ===== src/Prelude/Texts.antt =====
-- Python's `+` on texts.
use Prim.Native.String.{String, ◌++◌}
use mathlib.Core.Path.{◌≡◌, ap}
use text.Mathlib.TextLemmas.{append_cancel_left}
use text.Mathlib.TextEquality.{eq_iff}
use native.Mathlib.Omega.{arith}
use crime_prevention_and_per.Prelude.Equality.{String_eq, ◌==◌}

abbrev pub joined : String → String → String
joined s t = s ++ t

-- Texts with one beginning are equal exactly if their ends are.
pub joined_same : (s t u : String) → (joined s t == joined s u) ≡ (t == u)
joined_same s t u = ground (
  arith,
  eq_iff (joined s t) (joined s u),
  eq_iff t u,
  append_cancel_left s t u,
  λ (e : t ≡ u). ap (joined s) e,
)
