-- ===== src/Base/Text.antt =====
-- Texts can be compared, so they are keys of maps.
use Prim.Native.String.{String}
use text.Mathlib.Text.{◌==◌}
use text.Mathlib.TextEquality.{eq_iff}
use xstack.Base.Tests.{Bool-cases}
use mathlib.Core.Logic.{inl, inr}

unfoldable pub text_discrete : Discrete String
unfolding Bool-cases
text_discrete s t = elim (Bool-cases (s == t)) [
  | inl e ↦ yes ((eq_iff s t).0 e)
  | inr e ↦ no (λ same. cc ((eq_iff s t).1 same, e))
]
