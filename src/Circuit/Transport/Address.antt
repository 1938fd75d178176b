-- ===== src/Circuit/Transport/Address.antt =====
-- Which addresses the circuit transport takes.
use xstack.Base.{
  ◌≡◌, refl, sym, ap, ◌∙◌, ◌↔◌, [], ◌∷◌, ◌++◌, Option, none, some, Bool, true, false, ◌||◌, arith,
}
use xstack.Multiaddr.{
  pop, Protocol, p2p, p2p_circuit, Multiaddr, any, is_p2p_circuit, is_name, is_dnsaddr_transport,
  is_tcp_transport, is_quic_transport,
}
use xstack.Circuit.Transport.{before_circuit, before_peer, split_circuit, multiaddr_hint}

module _ {Ip PeerId Other : Type 0} where
  -- The address of a peer behind a relay.
  abbrev pub behind : Multiaddr Ip PeerId Other → PeerId → Multiaddr Ip PeerId Other
  behind relay id = (relay ++ p2p_circuit ∷ []) ++ p2p id ∷ []

  pop-append :
      (front : Multiaddr Ip PeerId Other) (proto : Protocol Ip PeerId Other)
      → pop (front ++ proto ∷ []) ≡ (some proto, front)
  unfolding pop
  pop-append [] proto = refl
  pop-append (x ∷ []) proto = refl
  pop-append (x ∷ y ∷ front) proto = rw (pop-append (y ∷ front) proto) refl

  abbrev joined :
      Option (Protocol Ip PeerId Other) × Multiaddr Ip PeerId Other → Multiaddr Ip PeerId Other
  joined (none, front) = front
  joined (some proto, front) = front ++ proto ∷ []

  joined-cons :
      (x : Protocol Ip PeerId Other)
      (o : Option (Protocol Ip PeerId Other) × Multiaddr Ip PeerId Other)
      → (let (last, front) = o in joined (last, x ∷ front)) ≡ x ∷ joined o
  joined-cons x (none, front) = refl
  joined-cons x (some proto, front) = refl

  joined-pop : (addr : Multiaddr Ip PeerId Other) → joined (pop addr) ≡ addr
  unfolding pop
  joined-pop [] = refl
  joined-pop (x ∷ []) = refl
  joined-pop (x ∷ y ∷ rest) =
      joined-cons x (pop (y ∷ rest)) ∙ ap (λ later. x ∷ later) (joined-pop (y ∷ rest))

  before_circuit-inversion :
      (other : PeerId) (o : Option (Protocol Ip PeerId Other) × Multiaddr Ip PeerId Other)
      (relay : Multiaddr Ip PeerId Other) (id : PeerId)
      → before_circuit other o ≡ some (relay, id)
      → (other ≡ id) × (joined o ≡ relay ++ p2p_circuit ∷ [])
  before_circuit-inversion other (some p2p_circuit, raddr) relay id e = (cc, cc)
  before_circuit-inversion other _ relay id e = absurd (ground (arith, e))

  before_peer-inversion :
      (o : Option (Protocol Ip PeerId Other) × Multiaddr Ip PeerId Other)
      (relay : Multiaddr Ip PeerId Other) (id : PeerId)
      → before_peer o ≡ some (relay, id)
      → joined o ≡ behind relay id
  before_peer-inversion (some (p2p other), raddr) relay id e =
      let (same, front) = before_circuit-inversion other (pop raddr) relay id e in
      rw (same, sym (joined-pop raddr), front) refl
  before_peer-inversion _ relay id e = absurd (ground (arith, e))

  any-append :
      (f : Protocol Ip PeerId Other → Bool) (xs ys : Multiaddr Ip PeerId Other)
      → any f (xs ++ ys) ≡ (any f xs || any f ys)
  unfolding any
  any-append f [] ys = refl
  any-append f (x ∷ xs) ys = ground (arith, any-append f xs ys)

  split_circuit-behind :
      (relay : Multiaddr Ip PeerId Other) (id : PeerId)
      → split_circuit (behind relay id) ≡ some (relay, id)
  unfolding split_circuit
  split_circuit-behind relay id =
      rw (pop-append (relay ++ p2p_circuit ∷ []) (p2p id), pop-append relay p2p_circuit) refl

  split_circuit-inversion :
      (addr relay : Multiaddr Ip PeerId Other) (id : PeerId)
      → split_circuit addr ≡ some (relay, id)
      → addr ≡ behind relay id
  unfolding split_circuit
  split_circuit-inversion addr relay id e =
      sym (joined-pop addr) ∙ before_peer-inversion (pop addr) relay id e

  circuit-any :
      (relay : Multiaddr Ip PeerId Other) (id : PeerId)
      → any is_p2p_circuit (behind relay id) ≡ true
  unfolding any
  circuit-any relay id = ground (
    arith,
    any-append is_p2p_circuit (relay ++ p2p_circuit ∷ []) (p2p id ∷ []),
    any-append is_p2p_circuit relay (p2p_circuit ∷ []),
  )

  name-any :
      (relay : Multiaddr Ip PeerId Other) (id : PeerId)
      → any is_name (behind relay id) ≡ any is_name relay
  unfolding any
  name-any relay id = ground (
    arith,
    any-append is_name (relay ++ p2p_circuit ∷ []) (p2p id ∷ []),
    any-append is_name relay (p2p_circuit ∷ []),
  )

  -- An address has this relay and this peer exactly where it is the address of the relay, the circuit
  -- and the peer. The hint holds of that address if `ends_with` knows the ends of addresses; neither
  -- the TCP transport nor the QUIC transport takes it, and that for DNS names takes it exactly where it
  -- takes the address of the relay.
  pub split_circuit_iff :
      (ends_with : Multiaddr Ip PeerId Other → Multiaddr Ip PeerId Other → Bool)
      (addr relay : Multiaddr Ip PeerId Other) (id : PeerId)
      → ((front end : Multiaddr Ip PeerId Other) → ends_with (front ++ end) end ≡ true)
      → ((split_circuit addr ≡ some (relay, id)) ↔ (addr ≡ behind relay id))
        × (multiaddr_hint ends_with (behind relay id) ≡ true)
        × (is_tcp_transport (behind relay id) ≡ false)
        × (is_quic_transport (behind relay id) ≡ false)
        × (is_dnsaddr_transport (behind relay id) ≡ is_dnsaddr_transport relay)
  unfolding multiaddr_hint is_tcp_transport is_quic_transport is_dnsaddr_transport
  split_circuit_iff ends_with addr relay id knows = (
    (split_circuit-inversion addr relay id, λ e. rw e (split_circuit-behind relay id)),
    rw (pop-append (relay ++ p2p_circuit ∷ []) (p2p id)) (knows relay (p2p_circuit ∷ [])),
    rw (circuit-any relay id) refl,
    rw (circuit-any relay id) refl,
    name-any relay id,
  )
