-- ===== src/Kad/Key.antt =====
-- Keys and distances of crates/kad/src/kbucket.rs: `KBucketKey` and `KBucketDistance`, 256-bit words
-- as numbers below 2^256.
pub mod Laws
pub mod Metric
use xstack.Base.{
  ℕ, zero, suc, ◌+◌, ◌-◌, ◌^◌, ◌≤◌, ◌<◌, ◌≡◌, Option, none, some, if◌then◌else◌, ltb, leb,
}
use Prim.Native.Nat.{bit_xor}

-- The width of a key in bits.
abbrev pub key_bits : ℕ
key_bits = 256

-- The zeros above the highest one of a word of `w` bits.
unfoldable pub leading_zeros : ℕ → ℕ → ℕ
leading_zeros zero d = 0
leading_zeros (suc w) d = let below = leading_zeros w d in if leb (2 ^ w) d then 0 else below + 1

unfoldable pub distance : ℕ → ℕ → ℕ
distance a b = bit_xor a b

-- `checked_sub(1)`: nothing at 0.
abbrev pub checked_pred : ℕ → Option ℕ
checked_pred zero = none
checked_pred (suc n) = some n

-- `KBucketDistance::k_index`, at the width of the word.
unfoldable pub k_index_at : ℕ → ℕ → Option ℕ
k_index_at w d = checked_pred (w - leading_zeros w d)

unfoldable pub k_index : ℕ → Option ℕ
k_index d = k_index_at key_bits d
