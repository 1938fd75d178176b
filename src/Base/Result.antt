-- ===== src/Base/Result.antt =====
-- Rust's `Result`. `?` is the bind, which passes an error on.
use mathlib.Core.List.{List, [], ◌∷◌}
use mathlib.Core.Path.{◌≡◌, refl, ap}
use native.Mathlib.Omega.{arith}

pub data Result {ℓ κ} (A : Type ℓ) (E : Type κ) : Type (ℓ ⊔ κ) where
  ok : A → Result A E
  err : E → Result A E

infixl 5 ◌>>=◌
abbrev pub ◌>>=◌ {ℓ κ ι} :
    {A : Type ℓ} {B : Type κ} {E : Type ι} → Result A E → (A → Result B E) → Result B E
ok a >>= f = f a
err e >>= f = err e

-- `map(f).collect::<Result<Vec<_>>>()`: the first error ends it.
unfoldable pub collect {ℓ κ ι} :
    {A : Type ℓ} {B : Type κ} {E : Type ι} → (A → Result B E) → List A → Result (List B) E
collect f [] = ok []
collect f (a ∷ rest) = f a >>= λ b. collect f rest >>= λ bs. ok (b ∷ bs)

-- A sequence that succeeds: both of its parts do.
pub bind-inversion {ℓ κ ι} :
    {A : Type ℓ} {B : Type κ} {E : Type ι} (r : Result A E) (f : A → Result B E) (b : B)
    → (r >>= f) ≡ ok b
    → (a : A) × (r ≡ ok a) × (f a ≡ ok b)
bind-inversion (ok a) f b e = (a, refl, e)
bind-inversion (err x) f b e = absurd (ground arith)

abbrev or_else {ℓ κ} : {A : Type ℓ} {E : Type κ} → A → Result A E → A
or_else a (ok b) = b
or_else a (err e) = a

pub ok-injective {ℓ κ} :
    {A : Type ℓ} {E : Type κ} {a b : A} → ◌≡◌ {A = Result A E} (ok a) (ok b) → a ≡ b
ok-injective {a} e = ap (or_else a) e
