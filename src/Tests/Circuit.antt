-- ===== src/Tests/Circuit.antt =====
-- A relay, and what goes through it.
use Prim.Native.String.{String}
use xstack.Base.{ℕ, zero, ◌≡◌, ◌↔◌, refl, arith, List, [], ◌∷◌, none, some, Bool, true, false}
use xstack.Base.Outcome.{done}
use xstack.Base.Result.{Result, ok}
use xstack.Multiaddr.{
  ip4, tcp, udp, quic_v1, p2p, p2p_circuit, is_dnsaddr_transport, is_tcp_transport,
  is_quic_transport,
}
use xstack.AutoNat.{nat, public}
use xstack.Rpc.{Io}
use xstack.Pool as Pools
use xstack.Base.Map
use xstack.Pool.Added.{place-IsConsistent}
use xstack.Pool.History.{new-IsConsistent}
use xstack.Switch.Addresses
use xstack.Switch.State.{Net, Failure, wire}
use xstack.Circuit.{HopMessage, StopMessage, HolePunch, Reservation}
use xstack.Circuit.Calls.{
  Codec, circuit_v2_hop_reserve, circuit_v2_stop_connect, circuit_v2_stop_connect_accept,
}
use xstack.Circuit.Calls.Stop.{stop_connect-accept}
use xstack.Circuit.Calls.Reserve.{Answered, reservation_of_lem}
use xstack.Circuit.Reservations.{Client, Round, End, Connect, reservation_client_loop, over_circuit}
use xstack.Circuit.Reservations.Leaves.{Holds, reservation_client_loop-Holds}
use xstack.Circuit.Transport.{split_circuit, multiaddr_hint}
use xstack.Circuit.Transport.Address.{behind, split_circuit_iff}
use xstack.Circuit.Upgrade.{upgrade}
use xstack.Circuit.Upgrade.Punched.{Punched, upgrade-Punched}
use xstack.Tests.Node.{Address, address_discrete, here, net, idle}

abbrev with_input : List ℕ → Io
with_input bytes = record { input = bytes; output = []; is_closed = false }

-- What a relay answers to a request for a reservation.
abbrev grant : HopMessage
grant = record {
  kind = some 2;
  peer = none;
  reservation = some (record { expire = some 90; addrs = (1 ∷ []) ∷ [] });
  limit = some (record { duration = some 60; bytes = none });
  status = some 100;
}

abbrev of_kind : List ℕ → StopMessage
of_kind (zero ∷ rest) = record { kind = some 0; peer = some (7 ∷ []); limit = none; status = none }
of_kind _ = record { kind = some 1; peer = none; limit = none; status = some 100 }

abbrev write_kind : StopMessage → List ℕ
write_kind message = elim (message.kind) [ none ↦ [] | some n ↦ n ∷ [] ]

-- The first byte tells a `CONNECT` from a `SYNC`.
abbrev punch_of : List ℕ → HolePunch
punch_of (zero ∷ rest) = record { kind = some 100; obs_addrs = (1 ∷ []) ∷ [] }
punch_of _ = record { kind = some 300; obs_addrs = [] }

abbrev codec_of : (N : Net) → (N.PeerId → List ℕ) → Codec N
codec_of N id_bytes = record {
  write_hop = λ _. ok (3 ∷ []);
  parse_hop = λ _. ok grant;
  write_stop = λ message. ok (write_kind message);
  parse_stop = λ bytes. ok (of_kind bytes);
  write_punch = λ _. ok (4 ∷ []);
  parse_punch = λ bytes. ok (punch_of bytes);
  id_bytes = id_bytes;
  max_time = 1000;
  show_status = λ _. "a status";
}

abbrev codec : Codec net
codec = codec_of net (λ id. id ∷ [])

stop_connect-accept_example :
    (circuit_v2_stop_connect net codec 7 10 (with_input (1 ∷ 1 ∷ 8 ∷ []))
      ≡ (ok tt, record (with_input (8 ∷ [])) { output = 1 ∷ 0 ∷ [] }))
    × (circuit_v2_stop_connect_accept net codec 10 (with_input (1 ∷ 0 ∷ 9 ∷ []))
        ≡ (ok none, record (with_input (9 ∷ [])) { output = 1 ∷ 1 ∷ [] }))
stop_connect-accept_example =
    stop_connect-accept net codec 7 10 (with_input (1 ∷ 1 ∷ 8 ∷ [])) (with_input (1 ∷ 0 ∷ 9 ∷ []))
      (0 ∷ []) (1 ∷ []) (9 ∷ []) (8 ∷ []) refl refl refl refl (omega arith) (omega arith) refl refl
      refl refl

reservation_of_lem_example : Answered net codec grant
reservation_of_lem_example = reservation_of_lem net codec grant

abbrev client : Client net
client = record { reservations = 3; mutable_switch = Addresses.new address_discrete 5 }

abbrev granted : Reservation Address
granted = record {
  expire = 90;
  addrs = here ∷ [];
  limit = some (record { duration = some 60; bytes = none });
}

-- A ping that is answered, and one after which the network has changed.
abbrev rounds : List (Round net)
rounds =
    record { lasts = true; ping = ok tt; network = nat }
    ∷ record { lasts = true; ping = ok tt; network = public }
    ∷ []

abbrev open_hop : ℕ → Connect net Io
open_hop _ m = (ok (with_input (1 ∷ 3 ∷ [])), m)

abbrev ping_stream : Connect net (Unit {0})
ping_stream m = (ok tt, m)

reservation_client_loop-Holds_example :
    (o : Client net × End net) × (reservation_client_loop net codec 10
        (ok (7 ∷ []))
        open_hop
        ping_stream
        rounds
        client
      ≡ done o)
    × Holds net (over_circuit net (here ∷ [])) client (ping_stream client.mutable_switch) rounds o
unfolding circuit_v2_hop_reserve
reservation_client_loop-Holds_example =
    reservation_client_loop-Holds net codec 10 7 [] open_hop (with_input (1 ∷ 3 ∷ []))
      (record (with_input []) { output = 1 ∷ 3 ∷ [] }) client.mutable_switch granted ping_stream
      rounds client (omega arith) refl refl

abbrev relayed : Address
relayed = ip4 9 ∷ tcp 80 ∷ p2p_circuit ∷ p2p 7 ∷ []

-- Whether an address ends with the circuit.
abbrev begins : Address → Address → Bool
begins addr end = true

split_circuit_iff_example :
    ((split_circuit relayed ≡ some (here, 7)) ↔ (relayed ≡ behind here 7))
    × (multiaddr_hint begins (behind here 7) ≡ true)
    × (is_tcp_transport (behind here 7) ≡ false)
    × (is_quic_transport (behind here 7) ≡ false)
    × (is_dnsaddr_transport (behind here 7) ≡ is_dnsaddr_transport here)
split_circuit_iff_example = split_circuit_iff begins relayed here 7 (λ front end. refl)

-- A network in which every address that is told is one for QUIC.
abbrev quic : Address
quic = ip4 9 ∷ udp 80 ∷ quic_v1 ∷ []

abbrev punching : Net
punching = record net { try_from = λ _. ok quic }

abbrev dial : Address → Result String (Failure punching)
dial _ = ok "direct"

abbrev pooled : Pools.PoolOf (wire punching)
pooled = Pools.place (wire punching) (Pools.new (wire punching) 20) "relayed" false none

upgrade-Punched_example : Punched punching idle dial "relayed" pooled (
    upgrade punching
      (codec_of punching (λ id. id ∷ []))
      idle
      dial
      10
      "relayed"
      (quic ∷ [])
      (with_input (1 ∷ 0 ∷ 1 ∷ 1 ∷ []))
      pooled)
unfolding Map.get
upgrade-Punched_example =
    upgrade-Punched punching idle dial "relayed" (λ c d same. (refl, refl))
      (codec_of punching (λ id. id ∷ [])) 10 (quic ∷ []) (with_input (1 ∷ 0 ∷ 1 ∷ 1 ∷ [])) pooled
      (place-IsConsistent (wire punching) (Pools.new (wire punching) 20) "relayed" false
        (λ c d same. (refl, refl)) (new-IsConsistent (wire punching) 20))
