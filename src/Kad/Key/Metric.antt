-- ===== src/Kad/Key/Metric.antt =====
-- The exclusive or as a metric on keys, and how the highest digits of two keys order their distances.
use native.Mathlib.Nat.{pow-suc, le_refl}
use Prim.Native.Nat.{bit_xor}
use xstack.Base.{
  ℕ, zero, suc, ◌+◌, ◌/◌, ◌^◌, ◌≤◌, ◌<◌, ◌≡◌, ◌↔◌, sym, ap, ◌∙◌, arith, dec_lt, subst,
}
use xstack.Base.Bits.{
  bit_xor_step, zero-bit_xor, bit_xor_self, bit_xor_comm, bit_xor_assoc, bit_xor-lt-pow,
  bit_xor-eq-zero,
}
use xstack.Kad.Key.{key_bits, distance}

pub distance_comm : (a b : ℕ) → distance a b ≡ distance b a
unfolding distance
distance_comm a b = bit_xor_comm a b

pub distance-lt : (a b : ℕ) → a < 2 ^ key_bits → b < 2 ^ key_bits → distance a b < 2 ^ key_bits
unfolding distance
distance-lt a b p q = bit_xor-lt-pow key_bits a b p q

pub distance-eq-zero_iff : (a b : ℕ) → (distance a b ≡ 0) ↔ (a ≡ b)
unfolding distance
distance-eq-zero_iff a b = (bit_xor-eq-zero a b, λ e. ap (λ c. bit_xor c b) e ∙ bit_xor_self b)

pub distance_cancel : (a b c : ℕ) → distance (distance a b) (distance b c) ≡ distance a c
unfolding distance
distance_cancel a b c =
    bit_xor_assoc a b (bit_xor b c)
    ∙ ap (bit_xor a)
        (sym (bit_xor_assoc b b c) ∙ ap (λ d. bit_xor d c) (bit_xor_self b) ∙ zero-bit_xor c)

-- An exclusive or is at most the sum.
xor-le-add_below : (k a b : ℕ) → a + b ≤ k → bit_xor a b ≤ a + b
xor-le-add_below k zero b h = omega (arith, zero-bit_xor b)
xor-le-add_below zero (suc a) b h = absurd (omega arith)
xor-le-add_below (suc k) (suc a) b h =
    omega (arith, bit_xor_step (suc a) b, xor-le-add_below k (suc a / 2) (b / 2) (omega arith))

-- The distance is a metric that no two keys share from a third: it is 0 exactly at the key itself,
-- symmetric, satisfies the triangle inequality, and for a key and a distance there is one key only.
pub distance_metric :
    (a b c : ℕ)
    → ((distance a b ≡ 0) ↔ (a ≡ b))
      × (distance a b ≡ distance b a)
      × (distance a c ≤ distance a b + distance b c)
      × ((distance a b ≡ distance a c) ↔ (b ≡ c))
unfolding distance
distance_metric a b c = (
  distance-eq-zero_iff a b,
  distance_comm a b,
  subst (λ d. d ≤ distance a b + distance b c) (distance_cancel a b c)
      (xor-le-add_below (distance a b + distance b c) (distance a b) (distance b c) (le_refl _)),
  (
    λ e. bit_xor-eq-zero b c (
        sym (distance_cancel b a c)
        ∙ ap (λ d. bit_xor d (bit_xor a c)) (bit_xor_comm b a ∙ e)
        ∙ bit_xor_self (bit_xor a c)),
    ap (distance a),
  ),
)

-- Where the highest digit of one number stands above the other number, it stays.
pub distance_above : (i x y : ℕ) → x < 2 ^ i → 2 ^ i ≤ y → 2 ^ i ≤ distance x y
unfolding distance
distance_above i x y p q = elim (dec_lt (bit_xor x y) (2 ^ i)) [
  | yes small ↦ absurd (
      omega (
        arith,
        bit_xor-lt-pow i x (bit_xor x y) p small,
        sym (bit_xor_assoc x x y),
        ap (λ d. bit_xor d y) (bit_xor_self x),
        zero-bit_xor y,
      ))
  | no large ↦ omega arith
]

-- Where both have the same highest digit, it goes.
pub distance_level :
    (i x y : ℕ) → 2 ^ i ≤ x → x < 2 ^ suc i → 2 ^ i ≤ y → y < 2 ^ suc i → distance x y < 2 ^ i
unfolding distance
distance_level zero x y p q r s = ground (arith, bit_xor_self 1)
distance_level (suc i) x y p q r s = omega (
  arith,
  bit_xor_step x y,
  pow-suc 2 i,
  pow-suc 2 (suc i),
  distance_level i (x / 2) (y / 2) (omega (arith, pow-suc 2 i, pow-suc 2 (suc i)))
      (omega (arith, pow-suc 2 i, pow-suc 2 (suc i)))
      (omega (arith, pow-suc 2 i, pow-suc 2 (suc i)))
      (omega (arith, pow-suc 2 i, pow-suc 2 (suc i))),
)
