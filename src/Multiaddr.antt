-- ===== src/Multiaddr.antt =====
-- The helpers of crates/xstack/src/multiaddr.rs. A multiaddr is the list of its protocols; texts are
-- lists of bytes, and what IP addresses, peers and the other protocols are is a parameter.
pub mod Transports
use xstack.Base.{
  ℕ, ◌≡◌, Option, none, some, List, [], ◌∷◌, Bool, true, false, ◌&&◌, ◌||◌, if◌then◌else◌,
}
use xstack.Base.Result.{Result, ok, err, ◌>>=◌}

pub data Protocol (Ip PeerId Other : Type 0) : Type 0 where
  ip4 ip6 : Ip → Protocol Ip PeerId Other
  tcp udp : ℕ → Protocol Ip PeerId Other
  dns dns4 dns6 dnsaddr : List ℕ → Protocol Ip PeerId Other
  p2p : PeerId → Protocol Ip PeerId Other
  p2p_circuit quic_v1 : Protocol Ip PeerId Other
  other_protocol : Other → Protocol Ip PeerId Other

pub data IpAddr (Ip : Type 0) : Type 0 where
  v4 v6 : Ip → IpAddr Ip

pub record SocketAddr (Ip : Type 0) : Type 0 where
  pub ip : IpAddr Ip
  pub port : ℕ

abbrev pub Multiaddr : Type 0 → Type 0 → Type 0 → Type 0
Multiaddr Ip PeerId Other = List (Protocol Ip PeerId Other)

module _ {Ip PeerId Other : Type 0} where
  -- The IP address that the first protocol holds.
  abbrev pub ip_of : Protocol Ip PeerId Other → Result (IpAddr Ip) (Unit {0})
  ip_of (ip4 ip) = ok (v4 ip)
  ip_of (ip6 ip) = ok (v6 ip)
  ip_of _ = err tt

  abbrev pub port_of : Protocol Ip PeerId Other → Result ℕ (Unit {0})
  port_of (tcp port) = ok port
  port_of (udp port) = ok port
  port_of _ = err tt

  -- Each of the errors of `to_sockaddr` is `UnknownProtocolString` of the whole address.
  unfoldable pub to_sockaddr : Multiaddr Ip PeerId Other → Result (SocketAddr Ip) (Unit {0})
  to_sockaddr [] = err tt
  to_sockaddr (first ∷ []) = ip_of first >>= λ _. err tt
  to_sockaddr (first ∷ next ∷ _) =
      ip_of first >>= λ ip. port_of next >>= λ port. ok (record { ip = ip; port = port })

  abbrev pub is_p2p_circuit : Protocol Ip PeerId Other → Bool
  is_p2p_circuit p2p_circuit = true
  is_p2p_circuit _ = false

  unfoldable pub any : (Protocol Ip PeerId Other → Bool) → Multiaddr Ip PeerId Other → Bool
  any f [] = false
  any f (proto ∷ rest) = let later = any f rest in f proto || later

  abbrev pub is_tcp : Protocol Ip PeerId Other → Bool
  is_tcp (tcp _) = true
  is_tcp _ = false

  abbrev pub is_udp : Protocol Ip PeerId Other → Bool
  is_udp (udp _) = true
  is_udp _ = false

  abbrev pub is_quic_v1 : Protocol Ip PeerId Other → Bool
  is_quic_v1 quic_v1 = true
  is_quic_v1 _ = false

  -- The tests of `protocol_stack` at 1, and at 1 and 2.
  abbrev pub second_is_tcp : Multiaddr Ip PeerId Other → Bool
  second_is_tcp (_ ∷ second ∷ _) = is_tcp second
  second_is_tcp _ = false

  abbrev pub then_udp_quic : Multiaddr Ip PeerId Other → Bool
  then_udp_quic (_ ∷ second ∷ third ∷ _) = is_udp second && is_quic_v1 third
  then_udp_quic _ = false

  unfoldable pub is_tcp_transport : Multiaddr Ip PeerId Other → Bool
  unfolding any
  is_tcp_transport addr = if any is_p2p_circuit addr then false else second_is_tcp addr

  unfoldable pub is_quic_transport : Multiaddr Ip PeerId Other → Bool
  unfolding any
  is_quic_transport addr = if any is_p2p_circuit addr then false else then_udp_quic addr

  abbrev pub is_name : Protocol Ip PeerId Other → Bool
  is_name (dns _) = true
  is_name (dns4 _) = true
  is_name (dns6 _) = true
  is_name (dnsaddr _) = true
  is_name _ = false

  unfoldable pub is_dnsaddr_transport : Multiaddr Ip PeerId Other → Bool
  unfolding any
  is_dnsaddr_transport addr = any is_name addr

  -- `Multiaddr::pop`: the last protocol, and what stands before it.
  unfoldable pub pop :
      Multiaddr Ip PeerId Other → Option (Protocol Ip PeerId Other) × Multiaddr Ip PeerId Other
  pop [] = (none, [])
  pop (proto ∷ []) = (some proto, [])
  pop (proto ∷ next ∷ rest) = let (last, front) = pop (next ∷ rest) in (last, proto ∷ front)
