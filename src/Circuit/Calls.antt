-- ===== src/Circuit/Calls.antt =====
-- The calls of crates/circuit/src/rpc.rs. The bytes of the messages and of peer identifiers are
-- parameters, and so are the last point in time that can be told, past which `UNIX_EPOCH + expire`
-- panics, and the text of a status.
pub mod Stop
pub mod Reserve
use Prim.Native.String.{String}
use xstack.Base.{
  ℕ, List, [], ◌∷◌, map, Option, none, some, Bool, true, false, not, if◌then◌else◌, leb, ◌==◌,
}
use mathlib.Core.Option
use xstack.Base.Outcome.{Outcome, done, panic}
use xstack.Base.Result.{Result, ok, err, ◌>>=◌, collect}
use xstack.Rpc.{Library, Message, Io, xstack_call, xstack_recv, xstack_send}
use xstack.Switch.State.{Net, Addr, Failure, library}
use xstack.Switch.Identity.{map_err}
use xstack.Circuit.{
  Error, hot_reject, circuit_stop, xstack_error, multiaddr, reservation_expire, dcutr_connect,
  dcutr_sync, ProtoLimit, ProtoReservation, HopMessage, StopMessage, HolePunch, Limit, limit_from,
  Reservation, hop_reserve_type, hop_connect_type, hop_status_type, stop_connect_type,
  stop_status_type, status_ok, punch_connect_type, punch_sync_type,
}

-- What the calls use of other libraries.
pub record Codec (N : Net) : Type 0 where
  pub write_hop : HopMessage → Result (List ℕ) N.Foreign
  pub parse_hop : List ℕ → Result HopMessage N.Foreign
  pub write_stop : StopMessage → Result (List ℕ) N.Foreign
  pub parse_stop : List ℕ → Result StopMessage N.Foreign
  pub write_punch : HolePunch → Result (List ℕ) N.Foreign
  pub parse_punch : List ℕ → Result HolePunch N.Foreign
  pub id_bytes : N.PeerId → List ℕ
  pub max_time : ℕ
  pub show_status : ℕ → String

abbrev pub is_number : Option ℕ → ℕ → Bool
is_number none n = false
is_number (some m) n = m == n

module _ (N : Net) (C : Codec N) where
  abbrev pub hop : Message N.Foreign
  hop = record { M = HopMessage; write_to_bytes = C.write_hop; parse_from_bytes = C.parse_hop }

  abbrev pub stop : Message N.Foreign
  stop = record { M = StopMessage; write_to_bytes = C.write_stop; parse_from_bytes = C.parse_stop }

  abbrev pub punch : Message N.Foreign
  punch = record { M = HolePunch; write_to_bytes = C.write_punch; parse_from_bytes = C.parse_punch }

  -- A call of `XStackRpc`, and what is made of its result.
  abbrev pub on_result :
      {A B : Type 0}
      → Result A (Failure N) × Io
      → (A → Result B (Error N))
      → Result B (Error N) × Io
  on_result (ok a, io) f = (f a, io)
  on_result (err e, io) f = (err (xstack_error e), io)

  abbrev pub addresses : List (List ℕ) → Result (List (Addr N)) (Error N)
  addresses bufs = collect (λ buf. map_err multiaddr (N.try_from buf)) bufs

  -- The checks on an answer: its type, and its status.
  abbrev pub check_ok : Option ℕ → Result (Unit {0}) (Error N)
  check_ok none = err (hot_reject "status field is null")
  check_ok (some status) =
      if status == status_ok then ok tt else err (hot_reject (C.show_status status))

  unfoldable pub check_status : ℕ → Option ℕ → Option ℕ → Result (Unit {0}) (Error N)
  check_status expected kind status =
      if is_number kind expected
      then check_ok status
      else err (hot_reject "Invalid response, expect status")

  abbrev pub hop_message : ℕ → Option (List ℕ) → HopMessage
  hop_message kind peer = record {
    kind = some kind;
    peer = peer;
    reservation = none;
    limit = none;
    status = none;
  }

  abbrev pub reserved :
      ℕ
      → Option ProtoLimit
      → Result (List (Addr N)) (Error N)
      → Result (Reservation (Addr N)) (Error N)
  reserved secs limit (err e) = err e
  reserved secs limit (ok addrs) =
      ok (record { expire = secs; addrs = addrs; limit = Option.map limit_from limit })

  abbrev pub until :
      Option ℕ
      → List (List ℕ)
      → Option ProtoLimit
      → Outcome (Result (Reservation (Addr N)) (Error N))
  until none addrs limit = done (err reservation_expire)
  until (some secs) addrs limit =
      if leb secs C.max_time then done (reserved secs limit (addresses addrs)) else panic

  abbrev pub granted :
      Option ProtoReservation
      → Option ProtoLimit
      → Outcome (Result (Reservation (Addr N)) (Error N))
  granted none limit = done (err (hot_reject "reservation field is null"))
  granted (some r) limit = until r.expire r.addrs limit

  abbrev pub checked :
      Result (Unit {0}) (Error N) → HopMessage → Outcome (Result (Reservation (Addr N)) (Error N))
  checked (err e) message = done (err e)
  checked (ok u) message = granted message.reservation message.limit

  -- What `circuit_v2_hop_reserve` makes of the answer.
  unfoldable pub reservation_of : HopMessage → Outcome (Result (Reservation (Addr N)) (Error N))
  unfolding check_status collect
  reservation_of message =
      checked (check_status hop_status_type message.kind message.status) message

  abbrev pub on_answer :
      Result HopMessage (Failure N) × Io → Outcome (Result (Reservation (Addr N)) (Error N) × Io)
  on_answer (err e, io) = done (err (xstack_error e), io)
  on_answer (ok message, io) = elim (reservation_of message) [ done r ↦ done (r, io) | _ ↦ panic ]

  unfoldable pub circuit_v2_hop_reserve :
      ℕ → Io → Outcome (Result (Reservation (Addr N)) (Error N) × Io)
  unfolding reservation_of xstack_call
  circuit_v2_hop_reserve max_recv_len io =
      on_answer (xstack_call (library N) hop (hop_message hop_reserve_type none) max_recv_len io)

  unfoldable pub circuit_v2_hop_connect : N.PeerId → ℕ → Io → Result (Option Limit) (Error N) × Io
  unfolding check_status xstack_call
  circuit_v2_hop_connect id max_recv_len io =
      on_result
        (xstack_call (library N) hop (hop_message hop_connect_type (some (C.id_bytes id)))
          max_recv_len io)
        λ message. check_status hop_status_type message.kind message.status >>= λ _.
          ok (Option.map limit_from message.limit)

  abbrev pub stop_request : N.PeerId → StopMessage
  stop_request id = record {
    kind = some stop_connect_type;
    peer = some (C.id_bytes id);
    limit = none;
    status = none;
  }

  abbrev pub stop_response : StopMessage
  stop_response = record {
    kind = some stop_status_type;
    peer = none;
    limit = none;
    status = some status_ok;
  }

  unfoldable pub circuit_v2_stop_connect : N.PeerId → ℕ → Io → Result (Unit {0}) (Error N) × Io
  unfolding check_status xstack_call
  circuit_v2_stop_connect id max_recv_len io =
      on_result (xstack_call (library N) stop (stop_request id) max_recv_len io)
        λ message. check_status stop_status_type message.kind message.status

  -- The answer to a `CONNECT`.
  abbrev pub answer_connect :
      Result StopMessage (Failure N) × Io → Result (Option Limit) (Error N) × Io
  answer_connect (err e, io) = (err (xstack_error e), io)
  answer_connect (ok message, io) =
      if is_number message.kind stop_connect_type
      then on_result (xstack_send (library N) stop stop_response io)
          (λ _. ok (Option.map limit_from message.limit))
      else (err (circuit_stop "expect CONNECT"), io)

  unfoldable pub circuit_v2_stop_connect_accept : ℕ → Io → Result (Option Limit) (Error N) × Io
  unfolding xstack_recv xstack_send
  circuit_v2_stop_connect_accept max_recv_len io =
      answer_connect (xstack_recv (library N) stop max_recv_len io)

  -- The messages of DCUtR.
  unfoldable pub dcutr_send_connect : List (Addr N) → Io → Result (Unit {0}) (Error N) × Io
  unfolding xstack_send
  dcutr_send_connect observed_addrs io =
      on_result
        (xstack_send (library N) punch
          (record { kind = some punch_connect_type; obs_addrs = map N.to_vec observed_addrs }) io)
        ok

  unfoldable pub dcutr_recv_connect : ℕ → Io → Result (List (Addr N)) (Error N) × Io
  unfolding xstack_recv collect
  dcutr_recv_connect max_recv_len io =
      on_result (xstack_recv (library N) punch max_recv_len io) λ message.
        if is_number message.kind punch_connect_type
        then addresses message.obs_addrs
        else err dcutr_connect

  unfoldable pub dcutr_send_sync : Io → Result (Unit {0}) (Error N) × Io
  unfolding xstack_send
  dcutr_send_sync io =
      on_result
        (xstack_send (library N) punch (record { kind = some punch_sync_type; obs_addrs = [] }) io)
        ok

  unfoldable pub dcutr_recv_sync : ℕ → Io → Result (Unit {0}) (Error N) × Io
  unfolding xstack_recv
  dcutr_recv_sync max_recv_len io =
      on_result (xstack_recv (library N) punch max_recv_len io)
        λ message. if is_number message.kind punch_sync_type then ok tt else err dcutr_sync
