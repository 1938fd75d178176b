-- ===== src/Base/Map.antt =====
-- `HashMap` as an association list. `insert` replaces the value of a key that is there; the order
-- of the entries stands for the order of iteration, of which the source relies on nothing.

use mathlib.Core.Path.{◌≡◌, refl, subst}
use xstack.Base.Lists.{All}
use mathlib.Core.Logic.{◌≢◌, ite}
use mathlib.Core.List.{List, [], ◌∷◌}
use mathlib.Core.Option.{Option, none, some}
use native.Mathlib.Omega.{arith}

abbrev pub Map {ℓ κ} : Type ℓ → Type κ → Type (ℓ ⊔ κ)
Map K V = List (K × V)

module _ {ℓ} {K V : Type ℓ} (dec : Discrete K) where
  unfoldable pub get : K → Map K V → Option V
  get k [] = none
  get k ((j, v) ∷ m) = ite (dec j k) (some v) (get k m)

  unfoldable pub insert : K → V → Map K V → Map K V
  insert k v [] = (k, v) ∷ []
  insert k v ((j, w) ∷ m) = ite (dec j k) ((k, v) ∷ m) ((j, w) ∷ insert k v m)

  unfoldable pub remove : K → Map K V → Map K V
  remove k [] = []
  remove k ((j, w) ∷ m) = ite (dec j k) (remove k m) ((j, w) ∷ remove k m)

  pub get-insert :
      (k j : K) (v : V) (m : Map K V) → get j (insert k v m) ≡ ite (dec k j) (some v) (get j m)
  unfolding get insert
  get-insert k j v [] = refl
  get-insert k j v ((i, w) ∷ m) = ground (arith, get-insert k j v m)

  pub get-insert_self : (k : K) (v : V) (m : Map K V) → get k (insert k v m) ≡ some v
  get-insert_self k v m = ground (arith, get-insert k k v m)

  pub get-insert_ne : (k j : K) (v : V) (m : Map K V) → k ≢ j → get j (insert k v m) ≡ get j m
  get-insert_ne k j v m ne = ground (arith, get-insert k j v m)

  pub get-remove : (k j : K) (m : Map K V) → get j (remove k m) ≡ ite (dec k j) none (get j m)
  unfolding get remove
  get-remove k j [] = ground arith
  get-remove k j ((i, w) ∷ m) = ground (arith, get-remove k j m)

  pub get-remove_self : (k : K) (m : Map K V) → get k (remove k m) ≡ none
  get-remove_self k m = ground (arith, get-remove k k m)

  pub get-remove_ne : (k j : K) (m : Map K V) → k ≢ j → get j (remove k m) ≡ get j m
  get-remove_ne k j m ne = ground (arith, get-remove k j m)

  pub insert-insert : (k : K) (v w : V) (m : Map K V) → insert k w (insert k v m) ≡ insert k w m
  unfolding insert
  insert-insert k v w [] = ground arith
  insert-insert k v w ((j, u) ∷ m) = ground (arith, insert-insert k v w m)

  pub remove-insert : (k : K) (v : V) (m : Map K V) → remove k (insert k v m) ≡ remove k m
  unfolding insert remove
  remove-insert k v [] = ground arith
  remove-insert k v ((j, u) ∷ m) = ground (arith, remove-insert k v m)

  -- No key occurs twice.
  abbrev pub IsMap : Map K V → Type ℓ
  IsMap [] = Unit
  IsMap ((k, v) ∷ m) = (get k m ≡ none) × IsMap m

  pub insert-IsMap : (k : K) (v : V) (m : Map K V) → IsMap m → IsMap (insert k v m)
  unfolding get insert
  insert-IsMap k v [] u = (refl, tt)
  insert-IsMap k v ((j, w) ∷ m) (new, u) =
      elim (dec j k) as (λ d. IsMap (ite d ((k, v) ∷ m) ((j, w) ∷ insert k v m))) [
        | yes e ↦ (ground (arith, new, e), u)
        | no ne ↦ (ground (arith, new, ne, get-insert k j v m), insert-IsMap k v m u)
      ]

  pub remove-IsMap : (k : K) (m : Map K V) → IsMap m → IsMap (remove k m)
  unfolding get remove
  remove-IsMap k [] u = tt
  remove-IsMap k ((j, w) ∷ m) (new, u) =
      elim (dec j k) as (λ d. IsMap (ite d (remove k m) ((j, w) ∷ remove k m))) [
        | yes e ↦ remove-IsMap k m u
        | no ne ↦ (ground (arith, new, ne, get-remove k j m), remove-IsMap k m u)
      ]

module _ {ℓ κ} {K V : Type ℓ} (dec : Discrete K) (P : K × V → Type κ) where
  pub get-All : (k : K) (v : V) (m : Map K V) → All P m → get dec k m ≡ some v → P (k, v)
  unfolding get
  get-All k v [] h e = absurd (ground arith)
  get-All k v ((j, w) ∷ m) (here, rest) e = elim (dec j k) [
    | yes same ↦ subst P (ground (arith, e, same)) here
    | no other ↦ get-All k v m rest (ground (arith, e, other))
  ]

  pub insert-All : (k : K) (v : V) (m : Map K V) → All P m → P (k, v) → All P (insert dec k v m)
  unfolding insert
  insert-All k v [] h p = (p, tt)
  insert-All k v ((j, w) ∷ m) (here, rest) p =
      elim (dec j k) as (λ d. All P (ite d ((k, v) ∷ m) ((j, w) ∷ insert dec k v m))) [
        | yes same ↦ (p, rest)
        | no other ↦ (here, insert-All k v m rest p)
      ]

  pub remove-All : (k : K) (m : Map K V) → All P m → All P (remove dec k m)
  unfolding remove
  remove-All k [] h = tt
  remove-All k ((j, w) ∷ m) (here, rest) =
      elim (dec j k) as (λ d. All P (ite d (remove dec k m) ((j, w) ∷ remove dec k m))) [
        | yes same ↦ remove-All k m rest
        | no other ↦ (here, remove-All k m rest)
      ]
