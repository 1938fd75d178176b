-- ===== src/Error.antt =====
-- `Error` of crates/xstack/src/errors.rs. The errors of other libraries are one unknown type.
use Prim.Native.String.{String}
use xstack.Base.{ℕ}

pub data Error (Addr PeerId Foreign : Type 0) : Type 0 where
  unsupported_multiaddr : Addr → Error Addr PeerId Foreign
  io_error : Foreign → Error Addr PeerId Foreign
  routing_path : PeerId → Error Addr PeerId Foreign
  unsigned_varint : Foreign → Error Addr PeerId Foreign
  overflow : ℕ → Error Addr PeerId Foreign
  protobuf_error identity_decoding_error : Foreign → Error Addr PeerId Foreign
  authenticate_failed : Error Addr PeerId Foreign
  multiaddr_error negotiation_error : Foreign → Error Addr PeerId Foreign
  invalid_ping_length : ℕ → Error Addr PeerId Foreign
  timeout : Error Addr PeerId Foreign
  other : String → Error Addr PeerId Foreign
  bind_error : String → Error Addr PeerId Foreign
  protocol_listener : ℕ → Error Addr PeerId Foreign
  protocol_listener_bind : String → Error Addr PeerId Foreign
  null_transport_stack peer_not_found empty_peer_addrs : Error Addr PeerId Foreign
  ping_mismatch autonat_response : Error Addr PeerId Foreign
  utf8_error from_utf8_error : Foreign → Error Addr PeerId Foreign
