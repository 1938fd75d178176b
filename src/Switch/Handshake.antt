-- ===== src/Switch/Handshake.antt =====
-- `handshake`, `transport_connect` and `handle_incoming` of crates/xstack/src/switch/switch.rs. A
-- timeout strikes while the code waits for the peer; the streams that come meanwhile are a list.
pub mod Ends
pub mod Settled
pub mod History
use Prim.Native.String.{String}
use xstack.Base.{ℕ, List, [], ◌∷◌, ◌++◌, Option, none, some, Bool, true, false, if◌then◌else◌}
use xstack.Base.Outcome.{Outcome, done, panic, out_of_fuel}
use xstack.Base.Result.{Result, ok, err}
use xstack.Base.Action.{of_result, modify, proceed, ◌>>=◌, ◌>>◌}
use xstack.Error.{Error, timeout, unsupported_multiaddr}
use xstack.Rpc.{Io}
use xstack.Dispatcher as Dispatchers
use xstack.Pool as Pools
use xstack.Event.{Sent}
use xstack.Switch.Addresses
use xstack.Switch.State.{Net, Addr, Switch, Failure, Task, stream_names, wire}
use xstack.Switch.Identity.{identity_request, dispatching}

module _ (N : Net) where
  open N use {Time, Conn, id}

  -- How the request for the identity goes: the time for it is over, or an attempt to open a stream
  -- ends, with what the peer sends on it.
  pub data Attempt : Type 0 where
    late : Attempt
    answered : Result Io (Failure N) → Attempt

  abbrev pub begin : Conn → Task N (Unit {0})
  begin conn = dispatching N λ d. done (Dispatchers.handshake (stream_names N) d (id conn))

  abbrev pub request : Conn → Time → (ℕ → Sent) → Attempt → Task N (Unit {0})
  request conn now answer late = of_result (err timeout)
  request conn now answer (answered opened) = identity_request N conn now answer opened

  unfoldable pub handshake :
      Conn
      → Time
      → (ℕ → Sent)
      → List (Dispatchers.Inbound (stream_names N))
      → Attempt
      → Task N (Unit {0})
  unfolding identity_request
  handshake conn now answer arrivals attempt = do
    begin conn
    dispatching N λ d. Dispatchers.dispatch_all (stream_names N) d arrivals
    request conn now answer attempt

  abbrev pub close : Conn → Switch N → Switch N
  close conn s = record s { closed = s.closed ++ id conn ∷ [] }

  -- A connection whose handshake fails is closed.
  abbrev pub or_close :
      Conn
      → Outcome (Result (Unit {0}) (Failure N) × Switch N)
      → Outcome (Result Conn (Failure N) × Switch N)
  or_close conn (done (ok u, s)) = done (ok conn, s)
  or_close conn (done (err e, s)) = done (err e, close conn s)
  or_close conn panic = panic
  or_close conn out_of_fuel = out_of_fuel

  -- A transport driver: `bind` gives the address that its listener is bound to, and a dial that takes
  -- too long gives nothing.
  pub record Transport : Type 0 where
    pub multiaddr_hint : Addr N → Bool
    pub bind : Addr N → Result (Addr N) (Failure N)
    pub connect : Addr N → Option (Result Conn (Failure N))

  unfoldable pub get_transport_by_address : List Transport → Addr N → Option Transport
  get_transport_by_address [] laddr = none
  get_transport_by_address (transport ∷ transports) laddr =
      let later = get_transport_by_address transports laddr in
      if transport.multiaddr_hint laddr then some transport else later

  abbrev pub in_time : Option (Result Conn (Failure N)) → Result Conn (Failure N)
  in_time none = err timeout
  in_time (some r) = r

  abbrev pub dial : Addr N → Option Transport → Result Conn (Failure N)
  dial raddr none = err (unsupported_multiaddr raddr)
  dial raddr (some transport) = in_time (transport.connect raddr)

  unfoldable pub transport_connect :
      List Transport
      → Addr N
      → Time
      → (ℕ → Sent)
      → List (Dispatchers.Inbound (stream_names N))
      → Attempt
      → Task N Conn
  unfolding get_transport_by_address handshake
  transport_connect transports raddr now answer arrivals attempt = do
    conn ← of_result (dial raddr (get_transport_by_address transports raddr))
    λ s. or_close conn (handshake conn now answer arrivals attempt s)

  abbrev pub with_pool :
      Switch N
      → Outcome (Pools.PoolOf (wire N))
      → Outcome (Result (Unit {0}) (Failure N) × Switch N)
  with_pool s (done pool) = done (ok tt, record s { connector = pool })
  with_pool s panic = panic
  with_pool s out_of_fuel = out_of_fuel

  -- A connection that passed its handshake goes to the pool.
  abbrev pub host : Pools.Health Conn → Conn → Bool → Task N (Unit {0})
  host h conn inbound s = with_pool s (Pools.add (wire N) h s.connector conn inbound)

  -- The task that `handle_incoming` starts for a connection; it logs an error and drops it.
  unfoldable pub handle_incoming :
      Pools.Health Conn
      → Conn
      → Time
      → (ℕ → Sent)
      → List (Dispatchers.Inbound (stream_names N))
      → Attempt
      → Task N (Unit {0})
  unfolding handshake
  handle_incoming h conn now answer arrivals attempt = do
    λ s. or_close conn (handshake conn now answer arrivals attempt s)
    host h conn true

  -- `transport_bind`: the listener's address is recorded.
  abbrev pub bind_at : Addr N → Option Transport → Result (Addr N) (Failure N)
  bind_at laddr none = err (unsupported_multiaddr laddr)
  bind_at laddr (some transport) = transport.bind laddr

  abbrev pub record_bound : Addr N → Switch N → Switch N
  record_bound laddr s = record s {
    mutable_switch = Addresses.transport_bind_to N.addr_discrete s.mutable_switch laddr;
  }

  unfoldable pub transport_bind : List Transport → Addr N → Task N (Unit {0})
  unfolding get_transport_by_address
  transport_bind transports laddr = do
    bound ← of_result (bind_at laddr (get_transport_by_address transports laddr))
    modify (record_bound bound)
