-- ===== src/Kad/Table.antt =====
-- `RawKBucketTable` of crates/kad/src/kbucket.rs: the buckets in the order of their creation, and
-- for each distance index the place of its bucket, if it has one. An index out of range panics.
pub mod View
pub mod Insert
use xstack.Base.{
  ℕ, ◌+◌, ◌-◌, ◌^◌, ◌<◌, List, [], ◌∷◌, ◌++◌, Option, none, some, length, get_elem?, set, replicate,
}
use xstack.Base.Outcome.{Outcome, done, panic, out_of_fuel, ◌>>=◌, or_panic}
use xstack.Kad.Key
use xstack.Kad.Bucket

-- What the table uses of `libp2p_identity` and `sha2`: peer identifiers can be compared, and
-- `KBucketKey::from` takes a peer to a key of 256 bits.
pub record Identity : Type 1 where
  pub PeerId : Type 0
  pub discrete : Discrete PeerId
  pub key_of : PeerId → ℕ
  pub key_of-lt : (p : PeerId) → key_of p < 2 ^ Key.key_bits

pub record Table (PeerId : Type 0) : Type 0 where
  pub local_key : ℕ
  pub k_buckets : List (List PeerId)
  pub k_index : List (Option ℕ)

-- `RawKBucketTable { local_key, k_buckets: default, k_index: default }`.
unfoldable pub empty : {PeerId : Type 0} → ℕ → Table PeerId
empty local_key = record {
  local_key = local_key;
  k_buckets = [];
  k_index = replicate Key.key_bits none;
}

-- A read by index, which panics out of range.
abbrev pub index {ℓ} : {A : Type ℓ} → List A → ℕ → Outcome A
index xs i = or_panic (get_elem? xs i)

read_slot : {PeerId : Type 0} → Table PeerId → Option ℕ → Outcome (Option (List PeerId))
read_slot t none = done none
read_slot t (some j) = index t.k_buckets j >>= λ b. done (some b)

-- `RawKBucketTable::bucket`.
unfoldable pub bucket : {PeerId : Type 0} → Table PeerId → ℕ → Outcome (Option (List PeerId))
unfolding read_slot
bucket t i = index t.k_index i >>= read_slot t

module _ (I : Identity) (k : ℕ) where
  open I use {PeerId, discrete, key_of}

  -- The distance index of a peer, seen from the local key; nothing for the local key itself.
  unfoldable pub peer_index : ℕ → PeerId → Option ℕ
  peer_index local_key p = Key.k_index (Key.distance (key_of p) local_key)

  insert_slot : Table PeerId → PeerId → ℕ → Option ℕ → Outcome (Table PeerId × Option PeerId)
  insert_slot t p i (some j) = index t.k_buckets j >>= λ b.
      let (b', r) = Bucket.try_insert discrete k b p in
      done (record t { k_buckets = set t.k_buckets j b' }, r)
  insert_slot t p i none =
      let pushed = t.k_buckets ++ (p ∷ []) ∷ [] in
      done (
        record t { k_buckets = pushed; k_index = set t.k_index i (some (length pushed - 1)) },
        none,
      )

  -- `RawKBucketTable::try_insert`: the table, and the peer that is returned. The local peer panics.
  unfoldable pub try_insert : Table PeerId → PeerId → Outcome (Table PeerId × Option PeerId)
  unfolding peer_index insert_slot
  try_insert t p =
      or_panic (peer_index t.local_key p) >>= λ i. index t.k_index i >>= insert_slot t p i
