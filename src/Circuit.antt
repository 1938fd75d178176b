-- ===== src/Circuit.antt =====
-- The circuit relay of crates/circuit: its errors, its messages and the limits of a relay.
pub mod Calls
pub mod Reservations
pub mod Upgrade
pub mod Transport
use Prim.Native.String.{String}
use xstack.Base.{ℕ, ◌%◌, ◌^◌, List, Option, none, some}
use mathlib.Core.Option
use xstack.Switch.State.{Net, Failure}

-- `Error` of crates/circuit/src/errors.rs.
pub data Error (N : Net) : Type 0 where
  hot_reject circuit_stop : String → Error N
  xstack_error : Failure N → Error N
  io_error protobuf read_error multiaddr : N.Foreign → Error N
  out_of_range : ℕ → Error N
  connect_addr reservation_expire dcutr_connect dcutr_sync : Error N

-- The messages of crates/circuit/proto, without the fields that the code never reads. An enum field
-- holds its number.
pub record ProtoLimit : Type 0 where
  pub duration : Option ℕ
  pub bytes : Option ℕ

pub record ProtoReservation : Type 0 where
  pub expire : Option ℕ
  pub addrs : List (List ℕ)

pub record HopMessage : Type 0 where
  pub kind : Option ℕ
  pub peer : Option (List ℕ)
  pub reservation : Option ProtoReservation
  pub limit : Option ProtoLimit
  pub status : Option ℕ

pub record StopMessage : Type 0 where
  pub kind : Option ℕ
  pub peer : Option (List ℕ)
  pub limit : Option ProtoLimit
  pub status : Option ℕ

pub record HolePunch : Type 0 where
  pub kind : Option ℕ
  pub obs_addrs : List (List ℕ)

-- `HopMessage`'s types, `StopMessage`'s types, the status `OK`, and the types of `HolePunch`.
abbrev pub hop_reserve_type : ℕ
hop_reserve_type = 0

abbrev pub hop_connect_type : ℕ
hop_connect_type = 1

abbrev pub hop_status_type : ℕ
hop_status_type = 2

abbrev pub stop_connect_type : ℕ
stop_connect_type = 0

abbrev pub stop_status_type : ℕ
stop_status_type = 1

abbrev pub status_ok : ℕ
status_ok = 100

abbrev pub punch_connect_type : ℕ
punch_connect_type = 100

abbrev pub punch_sync_type : ℕ
punch_sync_type = 300

-- `Limit`: a duration in seconds, and a number of bytes.
pub record Limit : Type 0 where
  pub duration : Option ℕ
  pub bytes : Option ℕ

abbrev pub limit_from : ProtoLimit → Limit
limit_from limit = record { duration = limit.duration; bytes = limit.bytes }

-- The seconds become a `u32`, the bytes a `u64`.
unfoldable pub to_proto_limit : Limit → ProtoLimit
to_proto_limit limit = record {
  duration = Option.map (λ (secs : ℕ). secs % 2 ^ 32) limit.duration;
  bytes = Option.map (λ (n : ℕ). n % 2 ^ 64) limit.bytes;
}

pub record Reservation (Addr : Type 0) : Type 0 where
  pub expire : ℕ
  pub addrs : List Addr
  pub limit : Option Limit
