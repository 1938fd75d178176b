-- ===== src/Circuit/Transport.antt =====
-- `CircuitTransport` of crates/circuit/src/transport.rs. The transport below, TLS and the byte-wise
-- `ends_with` of multiaddrs are parameters.
pub mod Address
use xstack.Base.{ℕ, List, [], ◌∷◌, Option, none, some, Bool, true, false}
use xstack.Base.Result.{Result, ok, err}
use xstack.Multiaddr.{
  Protocol, ip4, ip6, tcp, udp, dns, dns4, dns6, dnsaddr, p2p, p2p_circuit, quic_v1, other_protocol,
  Multiaddr, pop,
}
use xstack.Rpc.{Io}
use xstack.Switch.State.{Net, Addr, Failure}
use xstack.Circuit.{Error, xstack_error, io_error, connect_addr, Limit}
use xstack.Circuit.Calls.{Codec, circuit_v2_hop_connect}

module _ {Ip PeerId Other : Type 0} where
  abbrev pub before_circuit :
      PeerId
      → Option (Protocol Ip PeerId Other) × Multiaddr Ip PeerId Other
      → Option (Multiaddr Ip PeerId Other × PeerId)
  before_circuit id (some p2p_circuit, raddr) = some (raddr, id)
  before_circuit id _ = none

  abbrev pub before_peer :
      Option (Protocol Ip PeerId Other) × Multiaddr Ip PeerId Other
      → Option (Multiaddr Ip PeerId Other × PeerId)
  before_peer (some (p2p id), raddr) = before_circuit id (pop raddr)
  before_peer _ = none

  -- The relay and the peer behind it, for `connect`.
  unfoldable pub split_circuit :
      Multiaddr Ip PeerId Other → Option (Multiaddr Ip PeerId Other × PeerId)
  unfolding pop
  split_circuit raddr = before_peer (pop raddr)

  abbrev pub hinted :
      (Multiaddr Ip PeerId Other → Multiaddr Ip PeerId Other → Bool)
      → Option (Protocol Ip PeerId Other) × Multiaddr Ip PeerId Other
      → Bool
  hinted ends_with (some (p2p id), addr) = ends_with addr (p2p_circuit ∷ [])
  hinted ends_with _ = false

  unfoldable pub multiaddr_hint :
      (Multiaddr Ip PeerId Other → Multiaddr Ip PeerId Other → Bool)
      → Multiaddr Ip PeerId Other
      → Bool
  unfolding pop
  multiaddr_hint ends_with addr = hinted ends_with (pop addr)

module _ (N : Net) (C : Codec N) where
  abbrev pub secured : Result N.Conn N.Foreign → Result N.Conn (Error N)
  secured (ok conn) = ok conn
  secured (err e) = err (io_error e)

  abbrev pub upgraded :
      (Io → Result N.Conn N.Foreign)
      → Result (Option Limit) (Error N) × Io
      → Result N.Conn (Error N)
  upgraded tls_connect (ok limits, io) = secured (tls_connect io)
  upgraded tls_connect (err e, io) = err e

  abbrev pub through :
      N.PeerId
      → ℕ
      → (Io → Result N.Conn N.Foreign)
      → Result Io (Failure N)
      → Result N.Conn (Error N)
  through id max_packet_size tls_connect (ok io) =
      upgraded tls_connect (circuit_v2_hop_connect N C id max_packet_size io)
  through id max_packet_size tls_connect (err e) = err (xstack_error e)

  abbrev pub dial :
      ℕ
      → (Addr N → Result Io (Failure N))
      → (Io → Result N.Conn N.Foreign)
      → Option (Addr N × N.PeerId)
      → Result N.Conn (Error N)
  dial max_packet_size open_hop tls_connect none = err connect_addr
  dial max_packet_size open_hop tls_connect (some (relay, id)) =
      through id max_packet_size tls_connect (open_hop relay)

  -- `connect`: `open_hop` opens a stream to the relay, and `tls_connect` secures it.
  unfoldable pub connect :
      ℕ
      → (Addr N → Result Io (Failure N))
      → (Io → Result N.Conn N.Foreign)
      → Addr N
      → Result N.Conn (Error N)
  unfolding split_circuit circuit_v2_hop_connect
  connect max_packet_size open_hop tls_connect raddr =
      dial max_packet_size open_hop tls_connect (split_circuit raddr)
