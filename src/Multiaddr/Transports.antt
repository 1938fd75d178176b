-- ===== src/Multiaddr/Transports.antt =====
-- Which transport takes an address.
use xstack.Base.{
  ℕ, ◌≡◌, ◌⊎◌, inl, inr, refl, [], ◌∷◌, Bool, true, false, ◌&&◌, ◌||◌, if◌then◌else◌, arith,
  Bool-cases,
}
use xstack.Base.Result.{ok}
use xstack.Multiaddr.{
  Protocol, tcp, udp, Multiaddr, IpAddr, to_sockaddr, is_tcp_transport, is_quic_transport, any,
  is_tcp, is_udp, is_p2p_circuit, second_is_tcp, then_udp_quic, ip_of, port_of,
}

if_true : (c b : Bool) → (if c then false else b) ≡ true → b ≡ true
if_true true b h = absurd (ground (arith, h))
if_true false b h = h

module _ {Ip PeerId Other : Type 0} where
  -- What the second protocol of an address is decides on its transport, and on its port.
  second_lem :
      (second : Protocol Ip PeerId Other)
      → (is_tcp second || is_udp second) ≡ true
      → (port : ℕ) × (port_of second ≡ ok port) × ((is_tcp second && is_udp second) ≡ false)
  second_lem (tcp port) h = (port, refl, refl)
  second_lem (udp port) h = (port, refl, refl)
  second_lem _ h = absurd (ground (arith, h))

  second_of_quic :
      (addr : Multiaddr Ip PeerId Other) → then_udp_quic addr ≡ true → second_is_tcp addr ≡ false
  second_of_quic (_ ∷ udp _ ∷ third ∷ rest) h = refl
  second_of_quic (_ ∷ tcp _ ∷ third ∷ rest) h = absurd (ground (arith, h))
  second_of_quic _ h = absurd (ground (arith, h))

  never_both :
      (addr : Multiaddr Ip PeerId Other) → (is_tcp_transport addr && is_quic_transport addr) ≡ false
  unfolding is_tcp_transport is_quic_transport
  never_both addr = elim (Bool-cases (then_udp_quic addr)) [
    | inl quic ↦ ground (arith, second_of_quic addr quic)
    | inr other ↦ ground (arith, other)
  ]

  abbrev pub IsOverIp : Multiaddr Ip PeerId Other → Type 0
  IsOverIp addr = (is_tcp_transport addr ≡ true) ⊎ (is_quic_transport addr ≡ true)

  port_over_ip :
      (first : Protocol Ip PeerId Other) (rest : Multiaddr Ip PeerId Other)
      → (second_is_tcp (first ∷ rest) ≡ true) ⊎ (then_udp_quic (first ∷ rest) ≡ true)
      → (second : Protocol Ip PeerId Other) × (later : Multiaddr Ip PeerId Other) × (rest
          ≡ second ∷ later)
        × ((port : ℕ) × (port_of second ≡ ok port))
  port_over_ip first [] (inl h) = absurd (ground (arith, h))
  port_over_ip first [] (inr h) = absurd (ground (arith, h))
  port_over_ip first (tcp port ∷ later) h = (tcp port, later, refl, (port, refl))
  port_over_ip first (udp port ∷ later) h = (udp port, later, refl, (port, refl))
  port_over_ip first (second ∷ []) (inl h) = absurd (ground (arith, h))
  port_over_ip first (second ∷ []) (inr h) = absurd (ground (arith, h))
  port_over_ip first (second ∷ third ∷ later) (inl h) = absurd (ground (arith, h))
  port_over_ip first (second ∷ third ∷ later) (inr h) = absurd (ground (arith, h))

  -- The TCP transport and the QUIC transport never take one address both; and an address that one
  -- of them takes and that begins with an IP address has a socket address, with that IP address.
  pub transports_lem :
      (first : Protocol Ip PeerId Other) (rest : Multiaddr Ip PeerId Other) (ip : IpAddr Ip)
      → ip_of first ≡ ok ip
      → IsOverIp (first ∷ rest)
      → ((is_tcp_transport (first ∷ rest) && is_quic_transport (first ∷ rest)) ≡ false)
        × ((port : ℕ) × (to_sockaddr (first ∷ rest) ≡ ok (record { ip = ip; port = port })))
  unfolding is_tcp_transport is_quic_transport to_sockaddr
  transports_lem first rest ip e over =
      let stack = first ∷ rest in
      let circuit = any is_p2p_circuit stack in
      let over' : (second_is_tcp stack ≡ true) ⊎ (then_udp_quic stack ≡ true) = elim over [
        | inl h ↦ inl (if_true circuit (second_is_tcp stack) h)
        | inr h ↦ inr (if_true circuit (then_udp_quic stack) h)
      ] in
      let (second, later, shape, (port, has_port)) = port_over_ip first rest over' in
      (never_both stack, (port, rw (shape, e, has_port) refl))
