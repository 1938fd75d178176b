-- ===== src/Switch/Identity.antt =====
-- The identity exchange of crates/xstack/src/switch/protocols.rs. What the peer sends is on the
-- stream; whether a stream to it opens, and what the channels of events answer, are parameters.

pub mod Authenticated
pub mod Exchange
use Prim.Native.String.{String}
use xstack.Base.{
  ℕ, List, [], ◌∷◌, ◌++◌, map, length, Option, none, some, Bool, true, false, if◌then◌else◌, eqb,
}
use xstack.Base.Map.{Map}
use xstack.Base.Outcome.{Outcome, done, panic, out_of_fuel}
use xstack.Base.Result
use xstack.Base.Result.{Result, ok, err, collect}
use xstack.Base.Action.{of_result, modify, ◌>>=◌, ◌>>◌, proceed}
use xstack.Error.{
  Error, authenticate_failed, identity_decoding_error, multiaddr_error, protobuf_error,
}
use xstack.Multiaddr.{any, is_p2p_circuit}
use xstack.Rpc.{Io, xstack_recv_identity, write_all}
use xstack.Rpc as Calls
use xstack.PeerBook as PeerBooks
use xstack.Dispatcher as Dispatchers
use xstack.Event.{Event, handshake_success, handshake_failed, Sent}
use xstack.Event.Mediator as Mediators
use xstack.Switch.Addresses
use xstack.Switch.State.{
  Identity, Net, Addr, Switch, Failure, Task, library, identity_message, book_names, stream_names,
}

abbrev pub to_list {ℓ} : {A : Type ℓ} → Option A → List A
to_list none = []
to_list (some a) = a ∷ []

abbrev pub bytes_of : Option (List ℕ) → List ℕ
bytes_of none = []
bytes_of (some bytes) = bytes

abbrev pub map_err {ℓ κ ι} :
    {A : Type ℓ} {E : Type κ} {F : Type ι} → (E → F) → Result A E → Result A F
map_err wrap (ok a) = ok a
map_err wrap (err e) = err (wrap e)

abbrev pub protocol_ipfs_id : String
protocol_ipfs_id = "/ipfs/id/1.0.0"

abbrev pub protocol_ipfs_push_id : String
protocol_ipfs_push_id = "/ipfs/id/push/1.0.0"

abbrev pub protocol_ipfs_ping : String
protocol_ipfs_ping = "/ipfs/ping/1.0.0"

abbrev pub merge_protos : List String → List String
merge_protos protos = protos ++ protocol_ipfs_id ∷ protocol_ipfs_push_id ∷ protocol_ipfs_ping ∷ []

-- The keys of a map, in the order of iteration.
unfoldable pub keys {ℓ κ} : {K : Type ℓ} {V : Type κ} → Map K V → List K
keys [] = []
keys ((k, v) ∷ m) = k ∷ keys m

module _ (N : Net) where
  open N use {PeerId, PublicKey, Foreign, Time, Conn, peer_discrete, to_peer_id}

  abbrev pub addresses : List (List ℕ) → Result (List (Addr N)) (Failure N)
  addresses bufs = collect (λ buf. map_err multiaddr_error (N.try_from buf)) bufs

  -- The filter on the observed addresses.
  unfoldable pub direct : List (Addr N) → List (Addr N)
  unfolding any
  direct [] = []
  direct (a ∷ addrs) = let rest = direct addrs in if any is_p2p_circuit a then rest else a ∷ rest

  -- What `identity_push` learns from an identity: what is known of the peer, and the addresses at
  -- which the peer observed this node.
  abbrev pub Learned : Type 0
  Learned = PeerBooks.PeerInfo (book_names N) × List (Addr N)

  abbrev pub authenticate : PeerId → PeerId → Result (Unit {0}) (Failure N)
  authenticate conn_peer_id peer_id =
      if eqb peer_discrete conn_peer_id peer_id then ok tt else err authenticate_failed

  -- Its steps, the last first.
  abbrev pub tell : Time → Identity → PublicKey → List (Addr N) → List (Addr N) → Learned
  tell now identity pubkey raddrs observed_addrs = (
    record {
      id = to_peer_id pubkey;
      addrs = raddrs;
      protos = identity.protocols;
      appear = some now;
      disappear = none;
    },
    direct observed_addrs,
  )

  abbrev pub with_raddrs : Time → Identity → PublicKey → List (Addr N) → Result Learned (Failure N)
  with_raddrs now identity pubkey raddrs =
      Result.◌>>=◌ (addresses (to_list identity.observed_addr))
        λ observed_addrs. ok (tell now identity pubkey raddrs observed_addrs)

  abbrev pub with_key : PeerId → Time → Identity → PublicKey → Result Learned (Failure N)
  with_key conn_peer_id now identity pubkey =
      Result.◌>>=◌ (authenticate conn_peer_id (to_peer_id pubkey))
        λ _. Result.◌>>=◌ (addresses identity.listen_addrs) (with_raddrs now identity pubkey)

  unfoldable pub learn : PeerId → Time → Identity → Result Learned (Failure N)
  unfolding direct collect
  learn conn_peer_id now identity =
      Result.◌>>=◌
        (map_err identity_decoding_error (N.try_decode_protobuf (bytes_of identity.public_key)))
        (with_key conn_peer_id now identity)

  abbrev pub recv_identity : Io → Task N Identity
  recv_identity io s =
      done ((xstack_recv_identity (library N) (identity_message N) s.max_packet_size io).0, s)

  abbrev pub set_observed_addrs : List (Addr N) → Switch N → Switch N
  set_observed_addrs addrs s = record s {
    mutable_switch = Addresses.set_observed_addrs N.addr_discrete s.mutable_switch addrs;
  }

  abbrev pub insert_peer_info : PeerBooks.PeerInfo (book_names N) → Switch N → Switch N
  insert_peer_info info s = record s {
    peer_book = (PeerBooks.insert (book_names N) s.peer_book info).0;
  }

  unfoldable pub identity_push : PeerId → Time → Io → Task N (Unit {0})
  unfolding learn xstack_recv_identity
  identity_push conn_peer_id now io = do
    identity ← recv_identity io
    learned ← of_result (learn conn_peer_id now identity)
    modify (set_observed_addrs learned.1)
    modify (insert_peer_info learned.0)

  abbrev pub raise : (ℕ → Sent) → Event PeerId → Switch N → Switch N
  raise answer e s = record s { event_mediator = Mediators.raise answer s.event_mediator e }

  abbrev pub with_dispatcher :
      Switch N
      → Outcome (Dispatchers.Dispatcher (stream_names N))
      → Outcome (Result (Unit {0}) (Failure N) × Switch N)
  with_dispatcher s (done d) = done (ok tt, record s { stream_dispatcher = d })
  with_dispatcher s panic = panic
  with_dispatcher s out_of_fuel = out_of_fuel

  -- A step of the dispatcher.
  abbrev pub dispatching :
      (Dispatchers.Dispatcher (stream_names N) → Outcome (Dispatchers.Dispatcher (stream_names N)))
      → Task N (Unit {0})
  dispatching f s = with_dispatcher s (f s.stream_dispatcher)

  -- What `identity_request` does with what `identity_push` returns.
  abbrev pub settle :
      Conn
      → (ℕ → Sent)
      → Outcome (Result (Unit {0}) (Failure N) × Switch N)
      → Outcome (Result (Unit {0}) (Failure N) × Switch N)
  settle conn answer (done (ok u, s)) =
      ((dispatching λ d. Dispatchers.handshake_success (stream_names N) d (N.id conn))
          >> modify (raise answer (handshake_success (N.id conn) (to_peer_id (N.public_key conn)))))
        s
  settle conn answer (done (err e, s)) =
      ((dispatching λ d. done (Dispatchers.handshake_failed (stream_names N) d (N.id conn)))
          >> modify (raise answer (handshake_failed (N.id conn) (to_peer_id (N.public_key conn))))
          >> of_result (err e))
        s
  settle conn answer panic = panic
  settle conn answer out_of_fuel = out_of_fuel

  -- `identity_request`, on what the attempt to open a stream for it gives.
  unfoldable pub identity_request :
      Conn → Time → (ℕ → Sent) → Result Io (Failure N) → Task N (Unit {0})
  unfolding identity_push
  identity_request conn now answer opened = do
    io ← of_result opened
    λ s. settle conn answer (identity_push (to_peer_id (N.public_key conn)) now io s)

  -- The message that `identity_response` makes, for a stream of a relayed connection or of another.
  unfoldable pub own_identity : Switch N → Bool → Addr N → Identity
  unfolding keys
  own_identity s is_relay peer_addr = record {
    public_key = some (N.encode_protobuf s.public_key);
    listen_addrs = map N.to_vec (Addresses.listen_addrs N.addr_discrete s.mutable_switch);
    observed_addr = if is_relay then none else some (N.to_vec peer_addr);
    protocols = merge_protos (keys s.stream_dispatcher.protos);
    agent_version = some s.agent_version;
  }

  -- `identity_response`: it changes the stream alone.
  unfoldable pub identity_response :
      Switch N → Bool → Addr N → Io → Result (Unit {0}) (Failure N) × Io
  unfolding own_identity write_all
  identity_response s is_relay peer_addr =
      Calls.◌>>=◌ (library N)
        (Calls.lift (library N) protobuf_error
          (N.write_to_bytes (own_identity s is_relay peer_addr)))
        λ buf.
          Calls.◌>>=◌ (library N) (write_all (library N) (N.encode (length buf)))
            λ _. write_all (library N) buf
