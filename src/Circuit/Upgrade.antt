-- ===== src/Circuit/Upgrade.antt =====
-- `DCUtRUpgrader::upgrade` of crates/circuit/src/protocols/dcutr.rs: a relayed connection is replaced
-- by a direct one. Dials are a parameter.
pub mod Punched
use Prim.Native.String.{String}
use xstack.Base.{ℕ, List, [], ◌∷◌, ◌++◌, Option, none, some, Bool, true, false, if◌then◌else◌}
use xstack.Base.Outcome.{Outcome, done, panic, out_of_fuel, ◌>>=◌}
use xstack.Base.Result.{Result, ok, err}
use xstack.Multiaddr.{is_quic_transport}
use xstack.Rpc.{Io}
use xstack.Pool as Pools
use xstack.Switch.State.{Net, Addr, Failure, wire}
use xstack.Circuit.{Error, xstack_error}
use xstack.Circuit.Calls.{Codec, dcutr_recv_connect, dcutr_send_connect, dcutr_recv_sync}

module _ (N : Net) where
  unfoldable pub find_quic : List (Addr N) → Option (Addr N)
  unfolding is_quic_transport
  find_quic [] = none
  find_quic (addr ∷ addrs) =
      let later = find_quic addrs in if is_quic_transport addr then some addr else later

  abbrev pub push_pair :
      Addr N → Option (Addr N) → List (Addr N) × List (Addr N) → List (Addr N) × List (Addr N)
  push_pair addr none (laddrs, sync_addrs) = (laddrs, sync_addrs)
  push_pair addr (some laddr) (laddrs, sync_addrs) = (laddr ∷ laddrs, addr ∷ sync_addrs)

  -- The loop over the addresses of the peer: those to tell it, and those to dial.
  unfoldable pub pair_up : List (Addr N) → List (Addr N) → List (Addr N) × List (Addr N)
  unfolding find_quic
  pair_up observed [] = ([], [])
  pair_up observed (addr ∷ raddrs) =
      let rest = pair_up observed raddrs in
      if is_quic_transport addr then push_pair addr (find_quic observed) rest else rest

  -- The result of an upgrade, with the pool that it leaves.
  abbrev pub Upgraded : Type 0
  Upgraded = Outcome (Result (Unit {0}) (Error N) × Pools.PoolOf (wire N))

  -- `ConnPool::replace`.
  abbrev pub replace :
      Pools.Health N.Conn
      → N.Conn
      → String
      → Pools.PoolOf (wire N)
      → Outcome (Pools.PoolOf (wire N))
  replace h conn replaced pool =
      Pools.remove (wire N) h pool replaced >>= λ pool'. Pools.add (wire N) h pool' conn false

  -- The loop over the addresses to dial, with `last_error`.
  unfoldable pub try_each :
      Pools.Health N.Conn
      → (Addr N → Result N.Conn (Failure N))
      → String
      → Pools.PoolOf (wire N)
      → Option (Failure N)
      → List (Addr N)
      → Upgraded
  try_each h transport_connect replaced pool none [] = panic
  try_each h transport_connect replaced pool (some e) [] = done (err (xstack_error e), pool)
  try_each h transport_connect replaced pool last_error (addr ∷ sync_addrs) =
      elim (transport_connect addr) [
        | ok conn ↦ replace h conn replaced pool >>= λ pool'. done (ok tt, pool')
        | err e ↦ try_each h transport_connect replaced pool (some e) sync_addrs
      ]

  abbrev pub on_sync :
      Pools.Health N.Conn
      → (Addr N → Result N.Conn (Failure N))
      → String
      → Pools.PoolOf (wire N)
      → List (Addr N)
      → Result (Unit {0}) (Error N) × Io
      → Upgraded
  on_sync h transport_connect replaced pool sync_addrs (err e, io) = done (err e, pool)
  on_sync h transport_connect replaced pool sync_addrs (ok u, io) =
      try_each h transport_connect replaced pool none sync_addrs

  module _ (C : Codec N) (h : Pools.Health N.Conn)
      (transport_connect : Addr N → Result N.Conn (Failure N)) where
    abbrev pub on_sent :
        ℕ
        → String
        → Pools.PoolOf (wire N)
        → List (Addr N)
        → Result (Unit {0}) (Error N) × Io
        → Upgraded
    on_sent max_packet_size replaced pool sync_addrs (err e, io) = done (err e, pool)
    on_sent max_packet_size replaced pool sync_addrs (ok u, io) =
        on_sync h transport_connect replaced pool sync_addrs
          (dcutr_recv_sync N C max_packet_size io)

    abbrev pub on_pairs :
        ℕ → String → Pools.PoolOf (wire N) → Io → List (Addr N) × List (Addr N) → Upgraded
    on_pairs max_packet_size replaced pool io (laddrs, []) = done (ok tt, pool)
    on_pairs max_packet_size replaced pool io (laddrs, addr ∷ sync_addrs) =
        on_sent max_packet_size replaced pool (addr ∷ sync_addrs) (dcutr_send_connect N C laddrs io)

    abbrev pub on_connect :
        ℕ
        → String
        → List (Addr N)
        → Pools.PoolOf (wire N)
        → Result (List (Addr N)) (Error N) × Io
        → Upgraded
    on_connect max_packet_size replaced observed pool (err e, io) = done (err e, pool)
    on_connect max_packet_size replaced observed pool (ok raddrs, io) =
        on_pairs max_packet_size replaced pool io (pair_up observed raddrs)

    -- `upgrade`, of the connection with the identifier `replaced`.
    unfoldable pub upgrade : ℕ → String → List (Addr N) → Io → Pools.PoolOf (wire N) → Upgraded
    unfolding pair_up try_each dcutr_recv_connect dcutr_send_connect dcutr_recv_sync
    upgrade max_packet_size replaced observed io pool =
        on_connect max_packet_size replaced observed pool
          (dcutr_recv_connect N C max_packet_size io)
