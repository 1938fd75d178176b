-- ===== src/Switch/State.antt =====
-- The state of `Switch` in crates/xstack/src/switch/switch.rs, put together from the models of its
-- parts, and what it uses of other libraries.
use Prim.Native.String.{String}
use xstack.Base.{ℕ, ◌≡◌, List, [], ◌++◌, Option, ℕ_discrete}
use xstack.Base.Text.{text_discrete}
use xstack.Base.Result.{Result, ok}
use xstack.Base.Action.{Action}
use xstack.Error.{Error}
use xstack.Multiaddr.{Multiaddr}
use xstack.Rpc.{Library, Message}
use xstack.PeerBook as PeerBooks
use xstack.Dispatcher as Dispatchers
use xstack.Pool as Pools
use xstack.Event.Mediator.{Mediator, start}
use xstack.Switch.Addresses
use xstack.Switch.Addresses.{MutableSwitch}

-- The message `Identity` of crates/xstack/proto/identity.proto, as far as the code reads it.
pub record Identity : Type 0 where
  pub public_key : Option (List ℕ)
  pub listen_addrs : List (List ℕ)
  pub observed_addr : Option (List ℕ)
  pub protocols : List String
  pub agent_version : Option String

-- Keys, addresses, varints, messages, connections and streams, as other libraries have them: a key or
-- a number that is encoded is decoded again.
pub record Net : Type 1 where
  pub Ip : Type 0
  pub PeerId : Type 0
  pub Other : Type 0
  pub PublicKey : Type 0
  pub Foreign : Type 0
  pub Time : Type 0
  pub Conn : Type 0
  pub Stream : Type 0
  pub peer_discrete : Discrete PeerId
  pub addr_discrete : Discrete (Multiaddr Ip PeerId Other)
  pub to_peer_id : PublicKey → PeerId
  pub encode_protobuf : PublicKey → List ℕ
  pub try_decode_protobuf : List ℕ → Result PublicKey Foreign
  pub decode-encode_protobuf : (k : PublicKey) → try_decode_protobuf (encode_protobuf k) ≡ ok k
  pub to_vec : Multiaddr Ip PeerId Other → List ℕ
  pub try_from : List ℕ → Result (Multiaddr Ip PeerId Other) Foreign
  pub unexpected_eof : Foreign
  pub broken_pipe : Foreign
  pub encode : ℕ → List ℕ
  pub decode : List ℕ → Result (ℕ × List ℕ) Foreign
  pub decode-encode : (n : ℕ) (rest : List ℕ) → decode (encode n ++ rest) ≡ ok (n, rest)
  pub write_to_bytes : Identity → Result (List ℕ) Foreign
  pub parse_from_bytes : List ℕ → Result Identity Foreign
  pub id : Conn → String
  pub public_key : Conn → PublicKey
  pub peer_addr : Conn → Multiaddr Ip PeerId Other
  pub conn_id : Stream → String

abbrev pub Addr : Net → Type 0
Addr N = Multiaddr N.Ip N.PeerId N.Other

abbrev pub library : Net → Library
library N = record {
  Foreign = N.Foreign;
  Addr = Addr N;
  PeerId = N.PeerId;
  unexpected_eof = N.unexpected_eof;
  broken_pipe = N.broken_pipe;
  encode = N.encode;
  decode = N.decode;
  decode-encode = N.decode-encode;
}

abbrev pub identity_message : (N : Net) → Message N.Foreign
identity_message N = record {
  M = Identity;
  write_to_bytes = N.write_to_bytes;
  parse_from_bytes = N.parse_from_bytes;
}

abbrev pub book_names : Net → PeerBooks.Names
book_names N = record {
  PeerId = N.PeerId;
  Addr = Addr N;
  Protocol = String;
  Time = N.Time;
  peer_discrete = N.peer_discrete;
  addr_discrete = N.addr_discrete;
  protocol_discrete = text_discrete;
}

abbrev pub stream_names : Net → Dispatchers.Names
stream_names N = record {
  Stream = N.Stream;
  Protocol = String;
  ConnId = String;
  ListenerId = ℕ;
  protocol_discrete = text_discrete;
  conn_discrete = text_discrete;
  listener_discrete = ℕ_discrete;
  conn_id = N.conn_id;
}

abbrev pub wire : Net → Pools.Wire
wire N = record {
  Conn = N.Conn;
  Addr = Addr N;
  PeerId = N.PeerId;
  ConnId = String;
  addr_discrete = N.addr_discrete;
  peer_discrete = N.peer_discrete;
  id_discrete = text_discrete;
  id = N.id;
  peer_of = λ conn. N.to_peer_id (N.public_key conn);
  peer_addr = N.peer_addr;
}

-- `closed` lists the connections whose `close` the switch has called.
pub record Switch (N : Net) : Type 0 where
  pub public_key : N.PublicKey
  pub agent_version : String
  pub max_packet_size : ℕ
  pub mutable_switch : MutableSwitch (Addr N)
  pub peer_book : PeerBooks.Book (book_names N)
  pub stream_dispatcher : Dispatchers.Dispatcher (stream_names N)
  pub event_mediator : Mediator N.PeerId
  pub connector : Pools.PoolOf (wire N)
  pub closed : List String

-- The switch that `SwitchBuilder::create` makes, with the default drivers, before it binds addresses.
abbrev pub new_switch : (N : Net) → N.PublicKey → String → ℕ → ℕ → ℕ → Switch N
new_switch N key agent_version max_packet_size max_observed_addrs_len max_pool_size = record {
  public_key = key;
  agent_version = agent_version;
  max_packet_size = max_packet_size;
  mutable_switch = Addresses.new N.addr_discrete max_observed_addrs_len;
  peer_book = PeerBooks.empty (book_names N);
  stream_dispatcher = Dispatchers.empty (stream_names N);
  event_mediator = start;
  connector = Pools.new (wire N) max_pool_size;
  closed = [];
}

abbrev pub Failure : Net → Type 0
Failure N = Error (Addr N) N.PeerId N.Foreign

abbrev pub Task : Net → Type 0 → Type 0
Task N A = Action (Switch N) (Failure N) A
