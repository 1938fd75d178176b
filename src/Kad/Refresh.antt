-- ===== src/Kad/Refresh.antt =====
-- `KBucketTable` of crates/kad/src/kbucket.rs: the table with its counter, and the tasks that ping a
-- peer before they decide whom to keep. The lock on the table is held while the counter is written,
-- so that `insert_prv` is one step; between it and the answer to a ping any other steps can run.
pub mod Count
pub mod Run
pub mod Policy
use xstack.Base.{
  ℕ, zero, suc, ◌+◌, ◌-◌, ◌%◌, ◌^◌, List, [], ◌∷◌, ◌++◌, Option, none, some, ite, Bool, true, false,
  if◌then◌else◌, get_elem?,
}
use xstack.Base.Outcome.{Outcome, done, ◌>>=◌}
use xstack.Kad.Bucket.{remove_at}
use xstack.Kad.Table
use xstack.Kad.Table.{Identity, Table}

-- `usize` on a 64-bit machine, whose `fetch_add` and `fetch_sub` wrap around.
abbrev pub usize_mod : ℕ
usize_mod = 2 ^ 64

abbrev pub wrapping_add : ℕ → ℕ → ℕ
wrapping_add a b = (a + b) % usize_mod

abbrev pub wrapping_sub : ℕ → ℕ → ℕ
wrapping_sub a b = (a + usize_mod - b) % usize_mod

-- A spawned task: the peer to ping, and the peer whose insertion made the ping necessary.
pub record Ping (PeerId : Type 0) : Type 0 where
  pub lru : PeerId
  pub peer_id : PeerId

pub record State (PeerId : Type 0) : Type 0 where
  pub table : Table PeerId
  pub len : ℕ
  pub pings : List (Ping PeerId)

module _ (I : Identity) (k : ℕ) where
  open I use {PeerId, discrete}

  -- The counter after an insertion that returned `popped`.
  unfoldable pub count : ℕ → PeerId → Option PeerId → ℕ
  count len p none = wrapping_add len 1
  count len p (some popped) = ite (discrete popped p) len (wrapping_sub len 1)

  -- `KBucketTable::insert_prv`.
  unfoldable pub insert_prv : State PeerId → PeerId → Outcome (State PeerId × Option PeerId)
  unfolding count
  insert_prv s p = Table.try_insert I k s.table p >>= λ (table, popped).
      done (record s { table = table; len = count s.len p popped }, popped)

  abbrev pub spawn_ping : PeerId → State PeerId × Option PeerId → State PeerId
  spawn_ping p (s, none) = s
  spawn_ping p (s, some lru) = record s {
    pings = s.pings ++ record { lru = lru; peer_id = p } ∷ [];
  }

  -- `KBucketTable::insert`, up to the task that it spawns.
  unfoldable pub insert : State PeerId → PeerId → Outcome (State PeerId)
  unfolding insert_prv
  insert s p = insert_prv s p >>= λ r. done (spawn_ping p r)

  -- The task, once the ping of `lru` was answered or failed.
  unfoldable pub on_ping : State PeerId → Ping PeerId → Bool → Outcome (State PeerId)
  unfolding insert_prv
  on_ping s ping answered =
      insert_prv s (if answered then ping.peer_id else ping.lru) >>= λ r. done r.0

  -- `KBucketTable::bind`: an empty table for the key of the local peer.
  unfoldable pub bind : PeerId → State PeerId
  bind local_id = record { table = Table.empty (I.key_of local_id); len = 0; pings = [] }

-- What can happen next: a handshake succeeds and the peer is inserted, or one of the pings that are
-- under way ends.
pub data Event (PeerId : Type 0) : Type 0 where
  connected : PeerId → Event PeerId
  pinged : ℕ → Bool → Event PeerId

module _ (I : Identity) (k : ℕ) where
  open I use {PeerId}

  end_ping : State PeerId → ℕ → Bool → Option (Ping PeerId) → Outcome (State PeerId)
  end_ping s n answered none = done s
  end_ping s n answered (some ping) =
      on_ping I k (record s { pings = remove_at s.pings n }) ping answered

  unfoldable pub step : State PeerId → Event PeerId → Outcome (State PeerId)
  unfolding end_ping
  step s (connected p) = insert I k s p
  step s (pinged n answered) = end_ping s n answered (get_elem? s.pings n)

  unfoldable pub run : State PeerId → List (Event PeerId) → Outcome (State PeerId)
  unfolding step
  run s [] = done s
  run s (e ∷ es) = step s e >>= λ s'. run s' es
