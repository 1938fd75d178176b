-- ===== src/Pool/Connect.antt =====
-- `connect`, `connect_to` and `connect_raddrs` of `ConnPool` in crates/xstack/src/connector.rs. Dialing,
-- the shuffle of the addresses and what the switch knows of a peer are parameters, and so is what
-- happens to the pool during a dial, in which the pool is not locked: a transport that goes through a
-- relay connects to the relay first, by the same pool.
pub mod Replied
use xstack.Base.{
  ℕ, ◌+◌, ◌<◌, ◌≡◌, ◌⊎◌, inl, inr, refl, List, [], ◌∷◌, ◌++◌, Option, none, some, false, length,
  if_pos,
}
use xstack.Base.Outcome.{Outcome, done, panic, out_of_fuel, ◌>>=◌}
use xstack.Pool.{Wire, Health, PoolOf, add, by_peer_id, by_raddr}
use xstack.Pool.History.{Event, run}

-- What `connect` gives: `Ok`, or an `Err` with the error of a dial, `EmptyPeerAddrs` or
-- `PeerNotFound`.
pub data Reply (Conn Error : Type 0) : Type 0 where
  connected : Conn → Reply Conn Error
  refused : Error → Reply Conn Error
  empty_peer_addrs peer_not_found : Reply Conn Error

-- `transport_connect` on an address, where so many are left to try, with the operations on the pool
-- that are carried out before it returns; and `shuffle`.
pub record Dialer (W : Wire) : Type 1 where
  pub Error : Type 0
  pub dial : W.Addr → ℕ → Error ⊎ W.Conn
  pub meanwhile : W.Addr → ℕ → List (Health W.Conn × Event W.Conn W.ConnId)
  pub shuffle : List W.Addr → List W.Addr
  pub length-shuffle : (addrs : List W.Addr) → length (shuffle addrs) ≡ length addrs

module _ (W : Wire) (D : Dialer W) (pick : List W.ConnId → ℕ) (h : Health W.Conn) where
  open W use {Conn, Addr, PeerId, ConnId, peer_of, id_discrete, id}
  open D use {Error, dial, meanwhile, shuffle, length-shuffle}

  abbrev pub Answer : Type 0
  Answer = Outcome (PoolOf W × Reply Conn Error)

  abbrev pub give_up : PoolOf W → Option Error → Answer
  give_up s none = panic
  give_up s (some err) = done (s, refused err)

  -- The loop of `connect_raddrs`, with `last_error`.
  unfoldable pub dial_each : PoolOf W → List Addr → Option Error → Answer
  unfolding run
  dial_each s [] last_error = give_up s last_error
  dial_each s (a ∷ addrs) last_error = run W s (meanwhile a (length addrs)) >>= λ s'.
      elim (dial a (length addrs)) [
        | inl err ↦ dial_each s' addrs (some err)
        | inr conn ↦ add W h s' conn false >>= λ t. done (t, connected conn)
      ]

  -- `connect_raddrs`.
  abbrev pub connect_raddrs : PoolOf W → List Addr → Answer
  connect_raddrs s raddrs = dial_each s (shuffle raddrs) none

  abbrev pub pooled_or : PoolOf W → Answer → Option Conn → Answer
  pooled_or s otherwise none = otherwise
  pooled_or s otherwise (some conn) = done (s, connected conn)

  -- The loop of `connect` over the recorded addresses, and what follows it.
  unfoldable pub try_raddrs : PoolOf W → List Addr → Answer → Answer
  try_raddrs s [] otherwise = otherwise
  try_raddrs s (a ∷ addrs) otherwise =
      let rest = try_raddrs s addrs otherwise in by_raddr W pick s a >>= pooled_or s rest

  -- `DriverConnector::connect`.
  unfoldable pub connect : PoolOf W → List Addr → Answer
  unfolding try_raddrs dial_each
  connect s [] = done (s, empty_peer_addrs)
  connect s (a ∷ addrs) = try_raddrs s (a ∷ addrs) (connect_raddrs s (a ∷ addrs))

  -- What follows on `lookup_peer_info`, which fails or knows some addresses or nothing.
  abbrev pub connect_known : PoolOf W → Error ⊎ Option (List Addr) → Answer
  connect_known s (inl err) = done (s, refused err)
  connect_known s (inr none) = done (s, peer_not_found)
  connect_known s (inr (some [])) = done (s, peer_not_found)
  connect_known s (inr (some (a ∷ addrs))) = connect_raddrs s (a ∷ addrs)

  -- `DriverConnector::connect_to`.
  unfoldable pub connect_to : PoolOf W → PeerId → Error ⊎ Option (List Addr) → Answer
  unfolding dial_each
  connect_to s p known = by_peer_id W pick s p >>= pooled_or s (connect_known s known)
