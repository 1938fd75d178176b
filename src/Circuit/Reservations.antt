-- ===== src/Circuit/Reservations.antt =====
-- `reservation_client_loop_prv` of crates/circuit/src/protocols/stop.rs: a reservation at a relay, kept
-- alive by pings. What the clock, the pings and the network give in each round is a list.
pub mod Leaves
use xstack.Base.{ℕ, ◌+◌, ◌-◌, ◌%◌, ◌^◌, List, [], ◌∷◌, ◌++◌, map, Bool, true, false, if◌then◌else◌}
use xstack.Base.Outcome.{Outcome, done, panic, out_of_fuel}
use xstack.Base.Result.{Result, ok, err}
use xstack.AutoNat.{AutoNat, nat, same}
use xstack.Multiaddr.{p2p_circuit}
use xstack.Rpc.{Io}
use xstack.Switch.Addresses
use xstack.Switch.Addresses.{MutableSwitch}
use xstack.Switch.State.{Net, Addr, Failure}
use xstack.Circuit.{Error, xstack_error, Reservation}
use xstack.Circuit.Calls.{Codec, circuit_v2_hop_reserve}

-- The counter of `CircuitStopServer::reservations`, and the addresses of the switch.
pub record Client (N : Net) : Type 0 where
  pub reservations : ℕ
  pub mutable_switch : MutableSwitch (Addr N)

-- One round of the loop: whether the reservation still lasts, what the ping gives, and the network.
pub record Round (N : Net) : Type 0 where
  pub lasts : Bool
  pub ping : Result (Unit {0}) (Failure N)
  pub network : AutoNat

-- The task has returned, or it is running still.
pub data End (N : Net) : Type 0 where
  returned : Result (Unit {0}) (Error N) → End N
  running : End N

-- `connect` of the switch, which may run a handshake and so change the addresses of the switch.
abbrev pub Connect : Net → Type 0 → Type 0
Connect N A = MutableSwitch (Addr N) → Result A (Failure N) × MutableSwitch (Addr N)

module _ (N : Net) where
  -- `fetch_add(1)` and `fetch_sub(1)`, which wrap around.
  abbrev pub count_up : Client N → Client N
  count_up s = record s { reservations = (s.reservations + 1) % 2 ^ 64 }

  abbrev pub count_down : Client N → Client N
  count_down s = record s { reservations = (s.reservations + 2 ^ 64 - 1) % 2 ^ 64 }

  abbrev pub set_nat_addrs : List (Addr N) → Client N → Client N
  set_nat_addrs addrs s = record s {
    mutable_switch = Addresses.set_net_addrs N.addr_discrete s.mutable_switch addrs;
  }

  abbrev pub remove_nat_addrs : List (Addr N) → Client N → Client N
  remove_nat_addrs addrs s = record s {
    mutable_switch = Addresses.remove_net_addrs N.addr_discrete s.mutable_switch addrs;
  }

  -- One round of the loop: the test of the time, the ping, the test of the network.
  abbrev pub round :
      List (Addr N)
      → Client N
      → Client N × End N
      → Bool
      → Result (Unit {0}) (Failure N)
      → Bool
      → Client N × End N
  round nat_addrs s rest false ping behind_nat = (remove_nat_addrs nat_addrs s, returned (ok tt))
  round nat_addrs s rest true (err e) behind_nat =
      (remove_nat_addrs nat_addrs (count_down s), returned (err (xstack_error e)))
  round nat_addrs s rest true (ok u) false = (count_down s, returned (ok tt))
  round nat_addrs s rest true (ok u) true = rest

  -- The `while` loop.
  unfoldable pub keep_alive : List (Addr N) → Client N → List (Round N) → Client N × End N
  keep_alive nat_addrs s [] = (s, running)
  keep_alive nat_addrs s (r ∷ rounds) =
      let rest = keep_alive nat_addrs s rounds in
      round nat_addrs s rest r.lasts r.ping (same r.network nat)

  -- The addresses of the relay, over its circuit.
  abbrev pub over_circuit : List (Addr N) → List (Addr N)
  over_circuit addrs = map (λ (addr : Addr N). addr ++ p2p_circuit ∷ []) addrs

  abbrev pub with_switch : Client N → MutableSwitch (Addr N) → Client N
  with_switch s m = record s { mutable_switch = m }

  -- What follows on a reservation once a stream for pings was asked for.
  abbrev pub on_ping_stream :
      Reservation (Addr N)
      → List (Round N)
      → Client N
      → Result (Unit {0}) (Failure N) × MutableSwitch (Addr N)
      → Client N × End N
  on_ping_stream reservation rounds s (err e, m) =
      (count_down (with_switch s m), returned (err (xstack_error e)))
  on_ping_stream reservation rounds s (ok u, m) =
      keep_alive (over_circuit reservation.addrs)
        (set_nat_addrs (over_circuit reservation.addrs) (with_switch s m)) rounds

  abbrev pub hold :
      Reservation (Addr N) → Connect N (Unit {0}) → List (Round N) → Client N → Client N × End N
  hold reservation ping_stream rounds s =
      on_ping_stream reservation rounds (count_up s) (ping_stream s.mutable_switch)

  abbrev pub on_reservation :
      Outcome (Result (Reservation (Addr N)) (Error N) × Io)
      → Connect N (Unit {0})
      → List (Round N)
      → Client N
      → Outcome (Client N × End N)
  on_reservation (done (ok reservation, io)) ping_stream rounds s =
      done (hold reservation ping_stream rounds s)
  on_reservation (done (err e, io)) ping_stream rounds s = done (s, returned (err e))
  on_reservation panic ping_stream rounds s = panic
  on_reservation out_of_fuel ping_stream rounds s = out_of_fuel

  abbrev pub on_stream :
      Codec N
      → ℕ
      → Result Io (Failure N) × MutableSwitch (Addr N)
      → Connect N (Unit {0})
      → List (Round N)
      → Client N
      → Outcome (Client N × End N)
  on_stream C max_packet_size (err e, m) ping_stream rounds s =
      done (with_switch s m, returned (err (xstack_error e)))
  on_stream C max_packet_size (ok io, m) ping_stream rounds s =
      on_reservation (circuit_v2_hop_reserve N C max_packet_size io) ping_stream rounds
        (with_switch s m)

  -- The task, on the peers that `choose_peers` gives and what connecting gives, while no other task
  -- changes the counter or the addresses.
  unfoldable pub reservation_client_loop :
      Codec N
      → ℕ
      → Result (List N.PeerId) (Failure N)
      → (N.PeerId → Connect N Io)
      → Connect N (Unit {0})
      → List (Round N)
      → Client N
      → Outcome (Client N × End N)
  unfolding keep_alive circuit_v2_hop_reserve
  reservation_client_loop C max_packet_size (err e) open_hop ping_stream rounds s =
      done (s, returned (err (xstack_error e)))
  reservation_client_loop C max_packet_size (ok []) open_hop ping_stream rounds s =
      done (s, returned (ok tt))
  reservation_client_loop C max_packet_size (ok (peer ∷ peers)) open_hop ping_stream rounds s =
      on_stream C max_packet_size (open_hop peer s.mutable_switch) ping_stream rounds s
