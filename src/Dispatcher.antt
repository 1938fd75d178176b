-- ===== src/Dispatcher.antt =====
-- `MutexStreamDispatcher` of crates/xstack/src/stream.rs: which listener a protocol is bound to, the
-- streams that wait for a listener, and those of connections whose handshake is under way. `signals`
-- lists the listeners that `event_map` was told of, in order.
pub mod Guarantee
pub mod History
pub mod Handshake
pub mod Order
pub mod Binding
use xstack.Base.{ℕ, List, [], ◌∷◌, ◌++◌, Option, none, some, Bool, true, false, if◌then◌else◌, ite}
use xstack.Base.Map
use xstack.Base.Map.{Map}
use xstack.Base.Outcome.{Outcome, done, panic, out_of_fuel, ◌>>=◌, or_panic}

-- What the dispatcher uses of `ProtocolStream`, `String` and `XStackId`.
pub record Names : Type 1 where
  pub Stream : Type 0
  pub Protocol : Type 0
  pub ConnId : Type 0
  pub ListenerId : Type 0
  pub protocol_discrete : Discrete Protocol
  pub conn_discrete : Discrete ConnId
  pub listener_discrete : Discrete ListenerId
  pub conn_id : Stream → ConnId

abbrev pub Inbound : Names → Type 0
Inbound N = N.Stream × N.Protocol

pub record Dispatcher (N : Names) : Type 0 where
  pub is_closed : Bool
  pub inbound_streams : Map N.ListenerId (List (Inbound N))
  pub protos : Map N.Protocol N.ListenerId
  pub unauth_streams : Map N.ConnId (List (Inbound N))
  pub signals : List N.ListenerId

-- The results of `bind`, and of one round of `accept`.
pub data Bound (Protocol : Type 0) : Type 0 where
  bound broken_pipe : Bound Protocol
  in_use : Protocol → Bound Protocol

pub data Accepted (N : Names) : Type 0 where
  accepted : Inbound N → Accepted N
  waiting no_listener : Accepted N

module _ (N : Names) where
  open N use {
    Stream, Protocol, ConnId, ListenerId, protocol_discrete, conn_discrete, listener_discrete,
    conn_id,
  }

  abbrev pub empty : Dispatcher N
  empty = record {
    is_closed = false;
    inbound_streams = [];
    protos = [];
    unauth_streams = [];
    signals = [];
  }

  unfoldable pub handshake : Dispatcher N → ConnId → Dispatcher N
  handshake s c = record s { unauth_streams = Map.insert conn_discrete c [] s.unauth_streams }

  abbrev pub enqueue : Dispatcher N → ListenerId → Inbound N → List (Inbound N) → Dispatcher N
  enqueue s i x queue = record s {
    inbound_streams = Map.insert listener_discrete i (queue ++ x ∷ []) s.inbound_streams;
    signals = s.signals ++ i ∷ [];
  }

  abbrev pub to_listener : Dispatcher N → Inbound N → Option ListenerId → Outcome (Dispatcher N)
  to_listener s x none = done s
  to_listener s x (some i) = or_panic (Map.get listener_discrete i s.inbound_streams) >>= λ queue.
      done (enqueue s i x queue)

  abbrev pub route : Dispatcher N → Inbound N → Option (List (Inbound N)) → Outcome (Dispatcher N)
  route s x (some cached) = done (record s {
    unauth_streams = Map.insert conn_discrete (conn_id x.0) (cached ++ x ∷ []) s.unauth_streams;
  })
  route s x none = to_listener s x (Map.get protocol_discrete x.1 s.protos)

  unfoldable pub dispatch : Dispatcher N → Inbound N → Outcome (Dispatcher N)
  dispatch s x = route s x (Map.get conn_discrete (conn_id x.0) s.unauth_streams)

  unfoldable pub dispatch_all : Dispatcher N → List (Inbound N) → Outcome (Dispatcher N)
  unfolding dispatch
  dispatch_all s [] = done s
  dispatch_all s (x ∷ xs) = dispatch s x >>= λ s'. dispatch_all s' xs

  -- The step of both ends of a handshake that takes the cached streams out.
  abbrev pub release : Dispatcher N → ConnId → Dispatcher N
  release s c = record s { unauth_streams = Map.remove conn_discrete c s.unauth_streams }

  abbrev pub streams_of : Option (List (Inbound N)) → List (Inbound N)
  streams_of none = []
  streams_of (some streams) = streams

  abbrev pub cached : Dispatcher N → ConnId → List (Inbound N)
  cached s c = streams_of (Map.get conn_discrete c s.unauth_streams)

  unfoldable pub handshake_success : Dispatcher N → ConnId → Outcome (Dispatcher N)
  unfolding dispatch_all
  handshake_success s c = dispatch_all (release s c) (cached s c)

  unfoldable pub handshake_failed : Dispatcher N → ConnId → Dispatcher N
  handshake_failed s c = release s c

  -- The first of the protocols that is bound already.
  unfoldable pub find_bound : Map Protocol ListenerId → List Protocol → Option Protocol
  find_bound protos [] = none
  find_bound protos (p ∷ protocols) = elim (Map.get protocol_discrete p protos) [
    | some i ↦ some p
    | none ↦ find_bound protos protocols
  ]

  unfoldable pub bind_all :
      ListenerId → List Protocol → Map Protocol ListenerId → Map Protocol ListenerId
  bind_all i [] protos = protos
  bind_all i (p ∷ protocols) protos = bind_all i protocols (Map.insert protocol_discrete p i protos)

  abbrev pub bind_free :
      Dispatcher N → ListenerId → List Protocol → Option Protocol → Dispatcher N × Bound Protocol
  bind_free s i protocols (some p) = (s, in_use p)
  bind_free s i protocols none = (
    record s {
      protos = bind_all i protocols s.protos;
      inbound_streams = Map.insert listener_discrete i [] s.inbound_streams;
    },
    bound,
  )

  unfoldable pub bind : Dispatcher N → ListenerId → List Protocol → Dispatcher N × Bound Protocol
  unfolding find_bound bind_all
  bind s i protocols =
      if s.is_closed
      then (s, broken_pipe)
      else bind_free s i protocols (find_bound s.protos protocols)

  unfoldable pub keys_of : ListenerId → Map Protocol ListenerId → List Protocol
  keys_of i [] = []
  keys_of i ((p, j) ∷ protos) =
      let rest = keys_of i protos in ite (listener_discrete j i) (p ∷ rest) rest

  unfoldable pub unbind_all : List Protocol → Map Protocol ListenerId → Map Protocol ListenerId
  unbind_all [] protos = protos
  unbind_all (p ∷ protocols) protos = unbind_all protocols (Map.remove protocol_discrete p protos)

  unfoldable pub close : Dispatcher N → ListenerId → Dispatcher N
  unfolding keys_of unbind_all
  close s i = record s {
    protos = unbind_all (keys_of i s.protos) s.protos;
    inbound_streams = Map.remove listener_discrete i s.inbound_streams;
    signals = s.signals ++ i ∷ [];
  }

  abbrev pub pop : Dispatcher N → ListenerId → Option (List (Inbound N)) → Dispatcher N × Accepted N
  pop s i none = (s, no_listener)
  pop s i (some []) = (s, waiting)
  pop s i (some (x ∷ queue)) = (
    record s { inbound_streams = Map.insert listener_discrete i queue s.inbound_streams },
    accepted x,
  )

  -- One round of the loop of `accept`, up to the wait.
  unfoldable pub accept : Dispatcher N → ListenerId → Dispatcher N × Accepted N
  accept s i = pop s i (Map.get listener_discrete i s.inbound_streams)
