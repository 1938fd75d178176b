-- ===== src/Tests/Node.antt =====
-- A switch among others: its handshakes, its streams, and how it is made.
use Prim.Native.String.{String}
use xstack.Base.{ℕ, ◌≡◌, refl, arith, List, [], ◌∷◌, Option, some, true, false, ◌⊎◌, ℕ_discrete}
use xstack.Base.Map
use xstack.Base.Text.{text_discrete}
use xstack.Base.Outcome.{done}
use xstack.Base.Result.{Result, ok, err}
use xstack.Error.{Error, timeout}
use xstack.Multiaddr.{Multiaddr, ip4, tcp}
use xstack.AutoNat.{public}
use xstack.Rpc.{Io}
use xstack.Dispatcher as Dispatchers
use xstack.Dispatcher.Guarantee.{listener}
use xstack.Dispatcher.History.{empty-IsGuaranteed, bind-IsGuaranteed}
use xstack.Event.{Sent, accepted}
use xstack.PeerBook as PeerBooks
use xstack.Pool as Pools
use xstack.Switch.Addresses
use xstack.Switch.State.{Identity, Net, Switch, new_switch, stream_names, book_names}
use xstack.Switch.Identity.{own_identity, identity_response, identity_push, direct, keys}
use xstack.Switch.Identity.Authenticated.{Pushed, identity_push-Pushed}
use xstack.Switch.Identity.Exchange.{own_info, seen, identity_response-identity_push}
use xstack.Switch.Handshake.{late, answered, handshake}
use xstack.Switch.Handshake.Ends.{Stuck, Refused, Passed, handshake-Stuck, handshake-Ends}
use xstack.Switch.Handshake.Settled.{IsSound}
use xstack.Switch.Handshake.History.{Event, begun, ended, closed, run, run-IsSound}
use xstack.Switch.Streams.{ProtocolStream, handle_incoming_stream}
use xstack.Switch.Streams.Delivered.{Gone, handle_incoming_stream-Gone}

abbrev pub Address : Type 0
Address = Multiaddr ℕ ℕ ℕ

pub address_discrete : Discrete Address
address_discrete = hlevel ℕ_discrete

abbrev pub here : Address
here = ip4 9 ∷ tcp 80 ∷ []

abbrev pub head_of : List ℕ → Result ℕ (Unit {0})
head_of [] = err tt
head_of (n ∷ rest) = ok n

abbrev pub split : List ℕ → Result (ℕ × List ℕ) (Unit {0})
split [] = err tt
split (n ∷ rest) = ok (n, rest)

-- What the node with the key 5 tells of itself.
abbrev pub told : Identity
told = record {
  public_key = some (5 ∷ []);
  listen_addrs = (1 ∷ []) ∷ [];
  observed_addr = some (1 ∷ []);
  protocols = "/ipfs/id/1.0.0" ∷ "/ipfs/id/push/1.0.0" ∷ "/ipfs/ping/1.0.0" ∷ [];
  agent_version = some "node";
}

abbrev pub net : Net
net = record {
  Ip = ℕ;
  PeerId = ℕ;
  Other = ℕ;
  PublicKey = ℕ;
  Foreign = Unit {0};
  Time = ℕ;
  Conn = String;
  Stream = String;
  peer_discrete = ℕ_discrete;
  addr_discrete = address_discrete;
  to_peer_id = λ key. key;
  encode_protobuf = λ key. key ∷ [];
  try_decode_protobuf = head_of;
  decode-encode_protobuf = λ key. refl;
  to_vec = λ _. 1 ∷ [];
  try_from = λ _. ok here;
  unexpected_eof = tt;
  broken_pipe = tt;
  encode = λ n. n ∷ [];
  decode = split;
  decode-encode = λ n rest. refl;
  write_to_bytes = λ _. ok (7 ∷ []);
  parse_from_bytes = λ _. ok told;
  id = λ conn. conn;
  public_key = λ _. 5;
  peer_addr = λ _. here;
  conn_id = λ stream. stream;
}

abbrev fresh : ℕ → Switch net
fresh key = new_switch net key "node" 100 5 20

-- A node that listens at one address, and is known to be public.
abbrev node : Switch net
node = record (fresh 5) {
  mutable_switch = record (Addresses.new address_discrete 5) {
    observed_addrs = here ∷ [];
    nat_state = public;
  };
}

abbrev with_input : List ℕ → Io
with_input bytes = record { input = bytes; output = []; is_closed = false }

identity_response-identity_push_example :
    ((identity_response net node false here (with_input [])).0 ≡ ok tt)
    × (t : Switch net) × (identity_push net 5 3 (with_input (1 ∷ 7 ∷ 8 ∷ [])) (fresh 6)
        ≡ done (ok tt, t))
    × (PeerBooks.get (book_names net) t.peer_book 5 ≡ some (own_info net node 3))
    × (t.mutable_switch
        ≡ Addresses.set_observed_addrs address_discrete
            (fresh 6).mutable_switch
            (direct net (seen net false here)))
unfolding own_identity identity_response keys
identity_response-identity_push_example =
    identity_response-identity_push net node (fresh 6) false here 3 (7 ∷ []) (8 ∷ [])
      (with_input []) (with_input (1 ∷ 7 ∷ 8 ∷ [])) refl refl (omega arith) (refl, tt) refl refl
      refl refl

identity_push-Pushed_example :
    Pushed net
      (fresh 6)
      4
      3
      (with_input (1 ∷ 7 ∷ []))
      (identity_push net 4 3 (with_input (1 ∷ 7 ∷ [])) (fresh 6))
identity_push-Pushed_example = identity_push-Pushed net (fresh 6) 4 3 (with_input (1 ∷ 7 ∷ []))

abbrev take_all : ℕ → Sent
take_all _ = accepted

abbrev arrivals : List (String × String)
arrivals = ("c", "/chat") ∷ []

handshake-Stuck_example :
    Stuck net (fresh 6) "c" arrivals timeout (handshake net "c" 3 take_all arrivals late (fresh 6))
    × Stuck net
        (fresh 6)
        "c"
        arrivals
        timeout
        (handshake net "c" 3 take_all arrivals (answered (err timeout)) (fresh 6))
handshake-Stuck_example = handshake-Stuck net (fresh 6) "c" 3 take_all arrivals timeout (refl, tt)

handshake-Ends_example :
    Refused net
      (fresh 6)
      "c"
      3
      take_all
      (with_input (1 ∷ 7 ∷ []))
      (handshake net "c" 3 take_all arrivals (answered (ok (with_input (1 ∷ 7 ∷ [])))) (fresh 6))
    ⊎ Passed net
        (fresh 6)
        "c"
        3
        take_all
        (with_input (1 ∷ 7 ∷ []))
        arrivals
        (handshake net "c" 3 take_all arrivals (answered (ok (with_input (1 ∷ 7 ∷ [])))) (fresh 6))
handshake-Ends_example =
    handshake-Ends net (fresh 6) "c" 3 take_all (with_input (1 ∷ 7 ∷ [])) arrivals (refl, tt)
      (empty-IsGuaranteed (stream_names net))

abbrev pub idle : Pools.Health String
idle = record { is_closed = λ _. false; actives = λ _. 0 }

-- A connection comes, its peer shows itself, and another one fails to.
abbrev events : List (Event net)
events =
    begun "c"
    ∷ begun "d"
    ∷ ended idle "c" true 3 take_all (answered (ok (with_input (1 ∷ 7 ∷ []))))
    ∷ ended idle "d" false 4 take_all late
    ∷ closed idle "c"
    ∷ []

run-IsSound_example : (s : Switch net) × (run net (fresh 6) events ≡ done s) × IsSound net s
run-IsSound_example = run-IsSound net 6 "node" 100 5 20 events (λ c d same. (refl, refl))

abbrev chat : ProtocolStream net
chat = record {
  stream = "c";
  io = with_input [];
  public_key = 5;
  peer_addr = here;
  is_relay = false;
}

abbrev listening : Switch net
listening = record (fresh 6) {
  stream_dispatcher =
      (Dispatchers.bind (stream_names net) (Dispatchers.empty (stream_names net)) 1
        ("/chat" ∷ [])).0;
}

abbrev pick : List String → Option (Result String (Error Address ℕ (Unit {0})))
pick _ = some (ok "/chat")

handle_incoming_stream-Gone_example :
    ((i : ℕ) × (listener (stream_names net) listening.stream_dispatcher "/chat" ≡ some i))
    × (d : Dispatchers.Dispatcher (stream_names net)) × (handle_incoming_stream net pick
          (λ s. s)
          3
          0
          chat
          listening
        ≡ done (ok tt, record listening { stream_dispatcher = d }))
    × Gone net listening.stream_dispatcher d ("c", "/chat")
unfolding Dispatchers.bind keys text_discrete Map.get Map.insert
handle_incoming_stream-Gone_example =
    handle_incoming_stream-Gone net listening pick (λ s. s) 3 0 "/chat" chat
      (bind-IsGuaranteed (stream_names net) (Dispatchers.empty (stream_names net)) 1 ("/chat" ∷ [])
        (empty-IsGuaranteed (stream_names net)))
      refl refl refl refl
