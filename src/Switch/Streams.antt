-- ===== src/Switch/Streams.antt =====
-- `handle_incoming_stream` and `dispatch_stream` of crates/xstack/src/switch/switch.rs: a protocol is
-- negotiated for an incoming stream, and the stream is served or goes to the dispatcher.
pub mod Delivered
use Prim.Native.String.{String}
use xstack.Base.{ℕ, List, [], ◌∷◌, Option, none, some, Bool, true, false, if◌then◌else◌, eqb}
use xstack.Base.Text.{text_discrete}
use xstack.Base.Outcome.{Outcome, done, panic, out_of_fuel}
use xstack.Base.Result.{Result, ok, err}
use xstack.Base.Action.{of_result, ◌>>=◌, ◌>>◌}
use xstack.Error.{timeout}
use xstack.Rpc.{Io, ping_echo}
use xstack.Dispatcher as Dispatchers
use xstack.Switch.State.{Net, Addr, Switch, Failure, Task, stream_names, library}
use xstack.Switch.Identity.{
  identity_push, identity_response, dispatching, merge_protos, keys, protocol_ipfs_id,
  protocol_ipfs_push_id, protocol_ipfs_ping,
}

-- An incoming stream, what it carries, and what it reports of its connection.
pub record ProtocolStream (N : Net) : Type 0 where
  pub stream : N.Stream
  pub io : Io
  pub public_key : N.PublicKey
  pub peer_addr : Addr N
  pub is_relay : Bool

module _ (N : Net) where
  open N use {Time, to_peer_id}

  -- The protocols that are offered to the peer.
  abbrev pub offered : Switch N → List String
  offered s = merge_protos (keys s.stream_dispatcher.protos)

  -- A service that changes the stream alone.
  abbrev pub on_stream : Result (Unit {0}) (Failure N) × Io → Task N (Unit {0})
  on_stream (r, io) = of_result r

  -- The echo answers so many pings.
  unfoldable pub dispatch_stream : Time → ℕ → String → ProtocolStream N → Task N (Unit {0})
  unfolding identity_push identity_response ping_echo
  dispatch_stream now pings protocol_id p s =
      if eqb text_discrete protocol_id protocol_ipfs_id
      then on_stream (identity_response N s p.is_relay p.peer_addr p.io) s
      else if eqb text_discrete protocol_id protocol_ipfs_push_id
      then identity_push N (to_peer_id p.public_key) now p.io s
      else if eqb text_discrete protocol_id protocol_ipfs_ping
      then on_stream (ping_echo (library N) pings p.io) s
      else dispatching N (λ d. Dispatchers.dispatch (stream_names N) d (p.stream, protocol_id)) s

  abbrev pub in_time : Option (Result String (Failure N)) → Result String (Failure N)
  in_time none = err timeout
  in_time (some r) = r

  -- An error of `dispatch_stream` is logged and dropped.
  abbrev pub logged :
      Outcome (Result (Unit {0}) (Failure N) × Switch N)
      → Outcome (Result (Unit {0}) (Failure N) × Switch N)
  logged (done (r, s)) = done (ok tt, s)
  logged panic = panic
  logged out_of_fuel = out_of_fuel

  -- `listener_select_proto` picks a protocol of those that it is given, or fails, or takes too long;
  -- what other tasks do to the switch until then is a parameter.
  unfoldable pub handle_incoming_stream :
      (List String → Option (Result String (Failure N)))
      → (Switch N → Switch N)
      → Time
      → ℕ
      → ProtocolStream N
      → Task N (Unit {0})
  unfolding dispatch_stream keys
  handle_incoming_stream select meanwhile now pings p s =
      (of_result (in_time (select (offered s))) >>= λ protocol_id.
      λ t. logged (dispatch_stream now pings protocol_id p t))
        (meanwhile s)
