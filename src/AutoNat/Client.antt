-- ===== src/AutoNat/Client.antt =====
-- The requests of `AutoNatClient` of crates/autonat/src/client.rs. The bytes of the messages and of
-- peer identifiers are parameters.
pub mod Reports
use Prim.Native.String.{String}
use xstack.Base.{
  ℕ, List, [], ◌∷◌, map, Option, none, some, Bool, true, false, if◌then◌else◌, ◌||◌, ◌&&◌, not,
  ◌==◌, contains,
}
use xstack.Base.Text.{text_discrete}
use xstack.Base.Result.{Result, ok, err}
use xstack.Error.{autonat_response, multiaddr_error}
use xstack.Rpc.{Message, Io, xstack_send, xstack_recv_identity}
use xstack.Rpc as Calls
use xstack.PeerBook as PeerBooks
use xstack.AutoNat as AutoNats
use xstack.AutoNat.{AutoNat, unknown, same, Network}
use xstack.Switch.State.{Net, Addr, Failure, library, book_names}

-- The messages of crates/autonat/proto, without the fields that the code never uses. An enum field
-- holds its number.
pub record DialPeer : Type 0 where
  pub id : List ℕ
  pub addrs : List (List ℕ)

pub record DialResponse : Type 0 where
  pub status : Option ℕ
  pub addr : Option (List ℕ)

pub record DialMessage : Type 0 where
  pub kind : Option ℕ
  pub dial : Option DialPeer
  pub dial_response : Option DialResponse

abbrev pub dial_type : ℕ
dial_type = 0

-- The getter `status()`: a status that is not there or is none of those that are known reads as `OK`.
abbrev pub is_status_ok : Option ℕ → Bool
is_status_ok none = true
is_status_ok (some n) = not (n == 100 || n == 101 || n == 200 || n == 300)

abbrev pub protocol_libp2p_autonat : String
protocol_libp2p_autonat = "/libp2p/autonat/1.0.0"

-- What the client uses of other libraries.
pub record Codec (N : Net) : Type 0 where
  pub write : DialMessage → Result (List ℕ) N.Foreign
  pub parse : List ℕ → Result DialMessage N.Foreign
  pub to_bytes : N.PeerId → List ℕ

module _ (N : Net) (C : Codec N) where
  abbrev pub dial_message : Message N.Foreign
  dial_message = record { M = DialMessage; write_to_bytes = C.write; parse_from_bytes = C.parse }

  -- Whether `auto_nat_client` asks a peer that passed its handshake.
  abbrev pub speaks_autonat : Option (PeerBooks.PeerInfo (book_names N)) → Bool
  speaks_autonat none = false
  speaks_autonat (some info) = contains text_discrete info.protos protocol_libp2p_autonat

  abbrev pub is_asked : Network N.addr_discrete → PeerBooks.Book (book_names N) → N.PeerId → Bool
  is_asked s book peer_id =
      same unknown s.network && speaks_autonat (PeerBooks.get (book_names N) book peer_id)

  abbrev pub dial_request : N.PeerId → List (Addr N) → DialMessage
  dial_request local_id laddrs = record {
    kind = some dial_type;
    dial = some (record { id = C.to_bytes local_id; addrs = map N.to_vec laddrs });
    dial_response = none;
  }

  abbrev pub Requested : Type 0
  Requested = Result (Unit {0}) (Failure N) × Network N.addr_discrete

  abbrev pub on_addr : Network N.addr_discrete → Result (Addr N) N.Foreign → Requested
  on_addr s (ok addr) = (ok tt, AutoNats.on_report N.addr_discrete s (AutoNats.ok addr))
  on_addr s (err e) = (err (multiaddr_error e), s)

  abbrev pub on_success : Network N.addr_discrete → Option (List ℕ) → Requested
  on_success s none = (ok tt, s)
  on_success s (some addr) = on_addr s (N.try_from addr)

  abbrev pub on_response : Network N.addr_discrete → Option DialResponse → Requested
  on_response s none = (err autonat_response, s)
  on_response s (some response) =
      if is_status_ok response.status
      then on_success s response.addr
      else (ok tt, AutoNats.on_report N.addr_discrete s AutoNats.refused)

  abbrev pub on_answer : Network N.addr_discrete → Result DialMessage (Failure N) × Io → Requested
  on_answer s (err e, io) = (err e, s)
  on_answer s (ok message, io) = on_response s message.dial_response

  -- The request, and the answer to it.
  unfoldable pub ask : N.PeerId → List (Addr N) → ℕ → Io → Result DialMessage (Failure N) × Io
  unfolding xstack_send xstack_recv_identity
  ask local_id laddrs max_packet_size =
      Calls.◌>>◌ (library N) (xstack_send (library N) dial_message (dial_request local_id laddrs))
        (xstack_recv_identity (library N) dial_message max_packet_size)

  abbrev pub on_stream :
      N.PeerId → List (Addr N) → ℕ → Result Io (Failure N) → Network N.addr_discrete → Requested
  on_stream local_id laddrs max_packet_size (err e) s = (err e, s)
  on_stream local_id laddrs max_packet_size (ok io) s =
      on_answer s (ask local_id laddrs max_packet_size io)

  -- `autonat_request_prv`, on what the attempt to open a stream gives.
  unfoldable pub autonat_request :
      N.PeerId → List (Addr N) → ℕ → Result Io (Failure N) → Network N.addr_discrete → Requested
  unfolding ask
  autonat_request local_id laddrs max_packet_size opened s =
      on_stream local_id laddrs max_packet_size opened s

  -- Requests one after another, whose errors are logged and dropped.
  unfoldable pub request_all :
      N.PeerId
      → List (Addr N)
      → ℕ
      → List (Result Io (Failure N))
      → Network N.addr_discrete
      → Network N.addr_discrete
  unfolding autonat_request
  request_all local_id laddrs max_packet_size [] s = s
  request_all local_id laddrs max_packet_size (opened ∷ others) s =
      request_all local_id laddrs max_packet_size others
        (autonat_request local_id laddrs max_packet_size opened s).1
