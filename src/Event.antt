-- ===== src/Event.antt =====
-- The events of a switch, and their arguments, of crates/xstack/src/event.rs.
pub mod Mediator
pub mod Registered
pub mod Typed
pub mod History
pub mod Raise
use Prim.Native.String.{String}
use xstack.Base.{ℕ, ◌+◌, List, [], ◌∷◌, ◌++◌, Option, none, some, ite, ℕ_discrete}
use xstack.Base.Map
use xstack.Base.Map.{Map}
use xstack.Base.Text.{text_discrete}
use xstack.Base.Outcome.{Outcome, done, panic, out_of_fuel, ◌>>=◌}
use xstack.AutoNat.{AutoNat}

pub data Event (PeerId : Type 0) : Type 0 where
  connected : String → PeerId → Event PeerId
  handshake_success : String → PeerId → Event PeerId
  handshake_failed : String → PeerId → Event PeerId
  network : AutoNat → Event PeerId

-- The types that implement `ToEventArgument`.
pub data Kind : Type 0 where
  connected_kind success_kind failed_kind network_kind : Kind

abbrev pub name : Kind → String
name connected_kind = "/xstack/connected"
name success_kind = "/xstack/handshake_success"
name failed_kind = "/xstack/handshake_failed"
name network_kind = "/xstack/network"

-- What a channel answers to `try_send`.
pub data Sent : Type 0 where
  accepted full disconnected : Sent

module _ {PeerId : Type 0} where
  abbrev pub to_name : Event PeerId → String
  to_name (network n) = "/xstack/network"
  to_name (connected c p) = "/xstack/connected"
  to_name (handshake_success c p) = "/xstack/handshake_success"
  to_name (handshake_failed c p) = "/xstack/handshake_failed"

module _ (PeerId : Type 0) where
  -- `ToEventArgument::Argument`.
  abbrev pub Argument : Kind → Type 0
  Argument connected_kind = String × PeerId
  Argument success_kind = String × PeerId
  Argument failed_kind = String × PeerId
  Argument network_kind = AutoNat

  unfoldable pub into_argument : (k : Kind) → Event PeerId → Outcome (Argument k)
  into_argument connected_kind (connected c p) = done (c, p)
  into_argument success_kind (handshake_success c p) = done (c, p)
  into_argument failed_kind (handshake_failed c p) = done (c, p)
  into_argument network_kind (network n) = done n
  into_argument _ _ = panic
