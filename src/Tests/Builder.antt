-- ===== src/Tests/Builder.antt =====
-- A switch that is built with one transport and bound to one address.
use xstack.Base.{[], ◌∷◌, none, true}
use xstack.Base.Result.{Result, ok}
use xstack.Switch.State.{Switch}
use xstack.Switch.Handshake.{Transport}
use xstack.Switch.Builder.{
  SwitchBuilder, new, set_all, transport, transport_bind_to, max_packet_size,
}
use xstack.Tests.Node.{net, here}

abbrev tcp_like : Transport net
tcp_like = record { multiaddr_hint = λ _. true; bind = λ laddr. ok laddr; connect = λ _. none }

abbrev builder : SwitchBuilder net
builder =
    set_all net (new net "node" 5)
      (transport tcp_like ∷ max_packet_size 100 ∷ transport_bind_to (ok here ∷ []) ∷ [])
