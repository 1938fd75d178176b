-- ===== src/Kad/Key/Laws.antt =====
-- What `k_index` computes: the position of the highest one.
use native.Mathlib.Nat.{one-le-pow, pow-le-pow_right}
use xstack.Base.{
  ℕ, zero, suc, ◌+◌, ◌-◌, ◌^◌, ◌≤◌, ◌<◌, ◌≡◌, ◌↔◌, ◌⊎◌, inl, inr, refl, none, some, arith, leb,
  Bool-cases, ap, ◌∙◌, dec_lt, subst,
}
use xstack.Kad.Key.{key_bits, leading_zeros, k_index_at, k_index, checked_pred}

-- Either the word is 0 and all its digits are, or the highest one stands below them.
leading_zeros_lem :
    (w d : ℕ)
    → d < 2 ^ w
    → ((d ≡ 0) × (leading_zeros w d ≡ w))
      ⊎ ((i : ℕ) × (leading_zeros w d + suc i ≡ w) × (2 ^ i ≤ d) × (d < 2 ^ suc i))
unfolding leading_zeros
leading_zeros_lem zero d h = inl (omega arith, refl)
leading_zeros_lem (suc w) d h = elim (Bool-cases (leb (2 ^ w) d)) [
  | inl high ↦ inr (w, ground arith, ground arith, h)
  | inr low ↦ elim (leading_zeros_lem w d (ground arith)) [
    | inl (e, z) ↦ inl (e, ground arith)
    | inr (i, z, p, q) ↦ inr (i, ground arith, p, q)
  ]
]

pub k_index_cases :
    (d : ℕ)
    → d < 2 ^ key_bits
    → ((d ≡ 0) × (k_index d ≡ none))
      ⊎ ((i : ℕ) × (k_index d ≡ some i) × (i < key_bits) × (2 ^ i ≤ d) × (d < 2 ^ suc i))
unfolding k_index k_index_at
k_index_cases d h = elim (leading_zeros_lem key_bits d h) [
  | inl (e, z) ↦ inl (e, rw z refl)
  | inr (i, z, p, q) ↦
      let top : key_bits - leading_zeros key_bits d ≡ suc i = omega (arith, z) in
      inr (i, ap checked_pred top, omega (arith, z), p, q)
]

-- The highest one of a number stands in one place only.
highest_unique : (d i j : ℕ) → 2 ^ i ≤ d → d < 2 ^ suc i → 2 ^ j ≤ d → d < 2 ^ suc j → i ≡ j
highest_unique d i j p q r s = elim (dec_lt i j) [
  | yes less ↦
      absurd (omega (arith, pow-le-pow_right {n = 2} (omega arith) {i = suc i} {j = j} less))
  | no not_less ↦ elim (dec_lt j i) [
    | yes more ↦
        absurd (omega (arith, pow-le-pow_right {n = 2} (omega arith) {i = suc j} {j = i} more))
    | no not_more ↦ omega arith
  ]
]

-- `k_index` is the integer part of the base 2 logarithm of the distance: it is `some i` exactly when
-- the distance lies in [2^i, 2^(i+1)), for a distance of 256 bits.
pub k_index-eq-some_iff :
    (d i : ℕ) → d < 2 ^ key_bits → (k_index d ≡ some i) ↔ ((2 ^ i ≤ d) × (d < 2 ^ suc i))
k_index-eq-some_iff d i h = elim (k_index_cases d h) [
  | inl (e, z) ↦ (λ k. absurd (ground (arith)), λ (p, q). absurd (omega (arith, one-le-pow i 2)))
  | inr (j, k, _, p, q) ↦ (
    λ k'. let same : j ≡ i = ground arith in subst (λ m. (2 ^ m ≤ d) × (d < 2 ^ suc m)) same (p, q),
    λ (p', q'). k ∙ ap some (highest_unique d j i p q p' q'),
  )
]
