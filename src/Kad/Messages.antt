-- ===== src/Kad/Messages.antt =====
-- The calls of crates/kad/src/rpc.rs, on their messages, which are those of crates/kad/proto without
-- the fields that the code never uses. An enum field holds its number. The bytes of the messages and
-- of peer identifiers are parameters.
pub mod Shared
pub mod Put
use Prim.Native.String.{String}
use xstack.Base.{
  ℕ, List, [], ◌∷◌, map, Option, none, some, Bool, true, false, if◌then◌else◌, eqb, ◌==◌,
  ℕ_discrete,
}
use mathlib.Core.Option
use xstack.Base.Result.{Result, ok, err, ◌>>=◌, collect}
use xstack.Rpc.{Message, Io, xstack_call, xstack_send}
use xstack.PeerBook as PeerBooks
use xstack.Switch.State.{Net, Addr, Failure, library, book_names}
use xstack.Switch.Identity.{map_err}

unfoldable pub bytes_discrete : Discrete (List ℕ)
bytes_discrete = hlevel ℕ_discrete

-- `Error` of crates/kad/src/errors.rs.
pub data Error (N : Net) : Type 0 where
  xstack_error : Failure N → Error N
  closest rpc_type timeout : Error N
  peer_id_parse_error multiaddr_error protobuf_error io_error unsigned_varint_error :
      N.Foreign → Error N
  out_of_range : ℕ → Error N
  other : String → Error N
  without_p2p : Addr N → Error N

pub record ProtoPeer : Type 0 where
  pub id : List ℕ
  pub addrs : List (List ℕ)
  pub connection : ℕ

pub record ProtoRecord : Type 0 where
  pub key : List ℕ
  pub value : List ℕ

pub record KadMessage : Type 0 where
  pub kind : ℕ
  pub key : List ℕ
  pub store_record : Option ProtoRecord
  pub closer_peers : List ProtoPeer
  pub provider_peers : List ProtoPeer

abbrev pub put_value : ℕ
put_value = 0

abbrev pub get_value : ℕ
get_value = 1

abbrev pub add_provider : ℕ
add_provider = 2

abbrev pub get_providers : ℕ
get_providers = 3

abbrev pub find_node : ℕ
find_node = 4

-- What the calls use of other libraries.
pub record Codec (N : Net) : Type 0 where
  pub write : KadMessage → Result (List ℕ) N.Foreign
  pub parse : List ℕ → Result KadMessage N.Foreign
  pub to_bytes : N.PeerId → List ℕ
  pub from_bytes : List ℕ → Result N.PeerId N.Foreign

abbrev pub PeerInfo : Net → Type 0
PeerInfo N = PeerBooks.PeerInfo (book_names N)

pub record GetProviders (N : Net) : Type 0 where
  pub closer_peers : List (PeerInfo N)
  pub provider_peers : List (PeerInfo N)

pub record GetValue (N : Net) : Type 0 where
  pub closer_peers : List (PeerInfo N)
  pub value : Option (List ℕ)

-- `ConnectionType`, by whether the times of `appear` and `disappear` are known.
abbrev pub connection_of {ℓ} : {Time : Type ℓ} → Option Time → Option Time → ℕ
connection_of none none = 0
connection_of (some t) none = 1
connection_of (some t) (some u) = 2
connection_of none (some u) = 3

abbrev pub message_of : ℕ → List ℕ → KadMessage
message_of kind key = record {
  kind = kind;
  key = key;
  store_record = none;
  closer_peers = [];
  provider_peers = [];
}

module _ (N : Net) (C : Codec N) where
  abbrev pub kad : Message N.Foreign
  kad = record { M = KadMessage; write_to_bytes = C.write; parse_from_bytes = C.parse }

  -- `From<&PeerInfo>`.
  unfoldable pub to_peer : PeerInfo N → ProtoPeer
  to_peer info = record {
    id = C.to_bytes info.id;
    addrs = map N.to_vec info.addrs;
    connection = connection_of info.appear info.disappear;
  }

  abbrev pub addresses : List (List ℕ) → Result (List (Addr N)) (Error N)
  addresses bufs = collect (λ buf. map_err multiaddr_error (N.try_from buf)) bufs

  -- A peer of which the identifier and the addresses are known, and nothing else.
  abbrev pub known_at : N.PeerId → List (Addr N) → PeerInfo N
  known_at id addrs = record {
    id = id;
    addrs = addrs;
    protos = [];
    appear = none;
    disappear = none;
  }

  abbrev pub peer_id : List ℕ → Result N.PeerId (Error N)
  peer_id bytes = map_err peer_id_parse_error (C.from_bytes bytes)

  -- `TryFrom<Peer>`.
  unfoldable pub from_peer : ProtoPeer → Result (PeerInfo N) (Error N)
  unfolding collect
  from_peer peer =
      peer_id peer.id >>= λ id. addresses peer.addrs >>= λ addrs. ok (known_at id addrs)

  -- The body of the loop in `kad_find_node`, which reads the addresses first.
  unfoldable pub found_peer : ProtoPeer → Result (PeerInfo N) (Error N)
  unfolding collect
  found_peer peer =
      addresses peer.addrs >>= λ addrs. peer_id peer.id >>= λ id. ok (known_at id addrs)

  abbrev pub on_answer :
      {A : Type 0}
      → Result KadMessage (Failure N) × Io
      → (KadMessage → Result A (Error N))
      → Result A (Error N) × Io
  on_answer (ok message, io) f = (f message, io)
  on_answer (err e, io) f = (err (xstack_error e), io)

  unfoldable pub kad_find_node : List ℕ → ℕ → Io → Result (List (PeerInfo N)) (Error N) × Io
  unfolding xstack_call found_peer collect
  kad_find_node key max_recv_len io =
      on_answer (xstack_call (library N) kad (message_of find_node key) max_recv_len io)
        λ message. collect found_peer message.closer_peers

  abbrev pub put_request : List ℕ → List ℕ → KadMessage
  put_request key value = record (message_of put_value key) {
    store_record = some (record { key = key; value = value });
  }

  abbrev pub check_put : KadMessage → KadMessage → Result (Unit {0}) (Error N)
  check_put message resp =
      if eqb bytes_discrete message.key resp.key
      then if message.kind == resp.kind then ok tt else err rpc_type
      else err rpc_type

  unfoldable pub kad_put_value : List ℕ → List ℕ → ℕ → Io → Result (Unit {0}) (Error N) × Io
  unfolding xstack_call
  kad_put_value key value max_recv_len io =
      on_answer (xstack_call (library N) kad (put_request key value) max_recv_len io)
        (check_put (put_request key value))

  abbrev pub record_value : Option ProtoRecord → Option (List ℕ)
  record_value none = none
  record_value (some stored) = some stored.value

  unfoldable pub kad_get_value : List ℕ → ℕ → Io → Result (GetValue N) (Error N) × Io
  unfolding xstack_call from_peer collect
  kad_get_value key max_recv_len io =
      on_answer (xstack_call (library N) kad (message_of get_value key) max_recv_len io) λ resp.
        collect from_peer resp.closer_peers >>= λ closer.
        ok (record { closer_peers = closer; value = record_value resp.store_record })

  abbrev pub sent : Result (Unit {0}) (Failure N) × Io → Result (Unit {0}) (Error N) × Io
  sent (ok u, io) = (ok tt, io)
  sent (err e, io) = (err (xstack_error e), io)

  unfoldable pub kad_add_provider : List ℕ → PeerInfo N → Io → Result (Unit {0}) (Error N) × Io
  unfolding xstack_send to_peer
  kad_add_provider key peer_info io = sent (
      xstack_send (library N) kad
        (record (message_of add_provider key) { provider_peers = to_peer peer_info ∷ [] }) io)

  unfoldable pub kad_get_providers : List ℕ → ℕ → Io → Result (GetProviders N) (Error N) × Io
  unfolding xstack_call from_peer collect
  kad_get_providers key max_recv_len io =
      on_answer (xstack_call (library N) kad (message_of get_providers key) max_recv_len io) λ resp.
        collect from_peer resp.closer_peers >>= λ closer.
        collect from_peer resp.provider_peers >>= λ providers.
        ok (record { closer_peers = closer; provider_peers = providers })
