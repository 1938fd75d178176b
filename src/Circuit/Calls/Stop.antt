-- ===== src/Circuit/Calls/Stop.antt =====
-- The connection that a relay opens to the end of a circuit.
use xstack.Base.{ℕ, ◌≤◌, ◌≡◌, refl, List, ◌++◌, none, false, length}
use xstack.Base.Result.{ok}
use xstack.Rpc.{Io}
use xstack.Rpc.Framing.{frame, xstack_send_lem}
use xstack.Rpc.Session.{receive_one}
use xstack.Rpc.Call.{xstack_call_lem}
use xstack.Switch.State.{Net, library}
use xstack.Circuit.Calls.{
  Codec, stop, stop_request, stop_response, circuit_v2_stop_connect, circuit_v2_stop_connect_accept,
}

module _ (N : Net) (C : Codec N) where
  -- A relay that asks to connect and a peer that accepts, on the two ends of one stream: both
  -- succeed, the peer with no limit, since the relay names none; each has written its message and
  -- has read that of the other, and what the stream carries after them is left to read. The
  -- messages fit the limit of their receiver and are what their bytes are parsed to.
  pub stop_connect-accept :
      (id : N.PeerId) (max : ℕ) (relay peer : Io)
      (request response after_request after_response : List ℕ)
      → C.write_stop (stop_request N C id) ≡ ok request
      → C.parse_stop request ≡ ok (stop_request N C id)
      → C.write_stop (stop_response N C) ≡ ok response
      → C.parse_stop response ≡ ok (stop_response N C)
      → length request ≤ max
      → length response ≤ max
      → relay.is_closed ≡ false
      → peer.is_closed ≡ false
      → peer.input ≡ frame (library N) request ++ after_request
      → relay.input ≡ frame (library N) response ++ after_response
      → (circuit_v2_stop_connect N C id max relay ≡ (
        ok tt,
        record relay { input = after_response; output = relay.output ++ frame (library N) request },
      ))
        × (circuit_v2_stop_connect_accept N C max peer ≡ (
          ok none,
          record peer { input = after_request; output = peer.output ++ frame (library N) response },
        ))
  unfolding circuit_v2_stop_connect circuit_v2_stop_connect_accept
  stop_connect-accept id max relay peer request response after_request after_response wq pq wr pr fq
        fr oq or iq ir =
      let L = library N in
      let P = stop N C in
      let io : Io = record peer { input = after_request } in
      (
        rw
            (xstack_call_lem L P relay (stop_request N C id) (stop_response N C) request response
              after_response max wq pr fr oq ir)
            refl,
        rw (receive_one L P peer (stop_request N C id) request after_request max pq fq iq)
            (rw (xstack_send_lem L P io (stop_response N C) response wr or) refl),
      )
