-- ===== src/Kad/Bucket.antt =====
-- `KBucket` of crates/kad/src/kbucket.rs: at most `K` peers, the least recently seen in front. The
-- `VecDeque` is a list, its front the head.
pub mod Laws
use xstack.Base.{
  ℕ, zero, suc, ite, List, [], ◌∷◌, ◌++◌, Option, none, some, length, ◌==◌, if◌then◌else◌,
}

module _ {ℓ} {A : Type ℓ} where
  -- `VecDeque::remove`, of which the source drops the result.
  unfoldable pub remove_at : List A → ℕ → List A
  remove_at [] i = []
  remove_at (x ∷ xs) zero = xs
  remove_at (x ∷ xs) (suc i) = x ∷ remove_at xs i

  -- `VecDeque::pop_front`: what is left, and the front.
  unfoldable pub pop_front : List A → List A × Option A
  pop_front [] = ([], none)
  pop_front (x ∷ xs) = (xs, some x)

module _ {ℓ} {PeerId : Type ℓ} (dec : Discrete PeerId) where
  -- `.iter().enumerate().find_map(..)`, with the counter of `enumerate`.
  unfoldable pub find_index : ℕ → PeerId → List PeerId → Option ℕ
  find_index i p [] = none
  find_index i p (x ∷ xs) = ite (dec x p) (some i) (find_index (suc i) p xs)

  -- `KBucket::try_insert`: the bucket, and the peer that is returned.
  unfoldable pub try_insert : ℕ → List PeerId → PeerId → List PeerId × Option PeerId
  unfolding find_index remove_at pop_front
  try_insert k q p = elim (find_index 0 p q) [
    | some i ↦ (remove_at q i ++ p ∷ [], some p)
    | none ↦ if length q == k then pop_front q else (q ++ p ∷ [], none)
  ]
