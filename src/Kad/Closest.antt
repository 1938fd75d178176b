-- ===== src/Kad/Closest.antt =====
-- `RawKBucketTable::closest` of crates/kad/src/kbucket.rs. The `while` runs on fuel; a round that
-- leaves it by `break` stops.
pub mod Order
use mathlib.Core.Option
use xstack.Base.{
  ℕ, zero, suc, ◌+◌, ◌-◌, ◌≡◌, List, [], ◌++◌, Option, none, some, reverse, length, drop, ltb, leb,
  if◌then◌else◌,
}
use xstack.Base.Outcome.{Outcome, done, out_of_fuel, ◌>>=◌}
use xstack.Kad.Key
use xstack.Kad.Table.{Table, bucket}

pub data Flow {ℓ} (A : Type ℓ) : Type ℓ where
  next stop : A → Flow A

unfoldable pub follow {ℓ} : {A : Type ℓ} → Flow A → (A → Outcome A) → Outcome A
follow (next a) rest = rest a
follow (stop a) rest = done a

-- The rounds of the loop: after 256 of them both indices have left the table.
abbrev pub closest_fuel : ℕ
closest_fuel = suc Key.key_bits

module _ {PeerId : Type 0} (k : ℕ) where
  -- What the loop does with one bucket: all of it if it fits, else the most recently seen peers of
  -- it that do, and the loop is left.
  unfoldable pub add_bucket : List PeerId → Option (List PeerId) → Flow (List PeerId)
  add_bucket peers none = next peers
  add_bucket peers (some b) =
      if ltb k (length b + length peers)
      then stop (peers ++ reverse (drop (length b + length peers - k) b))
      else next (peers ++ reverse b)

  module _ (t : Table PeerId) (k_index : ℕ) where
    -- The bucket `step` below the key's.
    unfoldable pub lower : ℕ → List PeerId → Outcome (Flow (List PeerId))
    unfolding add_bucket
    lower step peers =
        if leb step k_index
        then (bucket t (k_index - step) >>= λ b. done (add_bucket peers b))
        else if leb (length t.k_index) (k_index + step)
        then done (stop peers)
        else done (next peers)

    -- The bucket `step` above the key's.
    unfoldable pub upper : ℕ → List PeerId → Outcome (Flow (List PeerId))
    unfolding add_bucket
    upper step peers =
        if ltb (k_index + step) (length t.k_index)
        then (bucket t (k_index + step) >>= λ b. done (add_bucket peers b))
        else if ltb k_index step
        then done (stop peers)
        else done (next peers)

    unfoldable pub closest_loop : ℕ → ℕ → List PeerId → Outcome (List PeerId)
    unfolding lower upper follow
    closest_loop zero step peers = out_of_fuel
    closest_loop (suc fuel) step peers =
        if ltb (length peers) k
        then (lower step peers >>= λ low. follow low λ peers.
            upper step peers >>= λ up. follow up λ peers. closest_loop fuel (step + 1) peers)
        else done peers

  abbrev pub newest_first : Option (List PeerId) → List PeerId
  newest_first none = []
  newest_first (some b) = reverse b

  unfoldable pub closest : Table PeerId → ℕ → Outcome (List PeerId)
  unfolding closest_loop
  closest t key =
      let k_index = Option.get_or (Key.k_index (Key.distance key t.local_key)) 1 in
      bucket t k_index >>= λ b. closest_loop t k_index closest_fuel 1 (newest_first b)
