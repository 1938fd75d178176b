-- ===== src/Base/Action.antt =====
-- Code that changes a state, that can fail with an error, which `?` passes on, and that can panic.
use xstack.Base.Outcome.{Outcome, done, panic, out_of_fuel}
use xstack.Base.Result.{Result, ok, err}

abbrev pub Action : Type 0 → Type 0 → Type 0 → Type 0
Action S E A = S → Outcome (Result A E × S)

abbrev pub proceed :
    {S E A B : Type 0} → Outcome (Result A E × S) → (A → Action S E B) → Outcome (Result B E × S)
proceed (done (ok a, s)) f = f a s
proceed (done (err e, s)) f = done (err e, s)
proceed panic f = panic
proceed out_of_fuel f = out_of_fuel

infixl 5 ◌>>=◌ ◌>>◌
abbrev pub ◌>>=◌ : {S E A B : Type 0} → Action S E A → (A → Action S E B) → Action S E B
◌>>=◌ m f s = proceed (m s) f

abbrev pub ◌>>◌ : {S E A B : Type 0} → Action S E A → Action S E B → Action S E B
m >> k = m >>= λ _. k

-- A result that does not depend on the state.
abbrev pub of_result : {S E A : Type 0} → Result A E → Action S E A
of_result r s = done (r, s)

abbrev pub modify : {S E : Type 0} → (S → S) → Action S E (Unit {0})
modify f s = done (ok tt, f s)
