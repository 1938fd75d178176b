-- ===== src/Tests/Switch.antt =====
-- The addresses of a switch, as numbers.
use native.Mathlib.Omega.{arith}
use xstack.Base.{ℕ, ◌≤◌, ◌≡◌, [], ◌∷◌, length, ℕ_discrete}
use xstack.Switch.Addresses.{MutableSwitch, new, set_observed_addrs}
use xstack.Switch.Addresses.Observed.{last_of, set_observed_addrs_lem}

abbrev room_for_2 : MutableSwitch ℕ
room_for_2 = new ℕ_discrete 2

set_observed_addrs_lem_example :
    ((set_observed_addrs ℕ_discrete room_for_2 (5 ∷ 6 ∷ 7 ∷ [])).observed_addrs
      ≡ last_of ℕ_discrete 2 (5 ∷ 6 ∷ 7 ∷ []))
    × (length (set_observed_addrs ℕ_discrete room_for_2 (5 ∷ 6 ∷ 7 ∷ [])).observed_addrs ≤ 2)
set_observed_addrs_lem_example =
    set_observed_addrs_lem ℕ_discrete room_for_2 (5 ∷ 6 ∷ 7 ∷ []) (omega arith) (omega arith)
