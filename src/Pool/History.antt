-- ===== src/Pool/History.antt =====
-- Any history of the connection pool, by the operations of `ConnPool` that change it.
use xstack.Base.{ℕ, arith, ◌≡◌, refl, List, [], ◌∷◌, Bool, true, false}
use xstack.Base.Map
use xstack.Base.Outcome.{Outcome, done, ◌>>=◌}
use xstack.Pool.{Wire, Health, PoolOf, new, remove, add, by_peer_id, by_raddr}
use xstack.Pool.Index.{occurrences}
use xstack.Pool.Consistent.{AreClones, IsConsistent, remove-Removed}
use xstack.Pool.Limits.{add-Trimmed}
use xstack.Pool.Lookup.{Serves, ServesAddr, by_peer_id-Serves, by_raddr-ServesAddr}

-- `incoming`, the `add` at the end of a dial, `replace` and `close`.
pub data Event (Conn ConnId : Type 0) : Type 0 where
  incoming dialed : Conn → Event Conn ConnId
  replaced : Conn → ConnId → Bool → Event Conn ConnId
  closed : ConnId → Event Conn ConnId

module _ (W : Wire) where
  open W use {Conn, Addr, PeerId, ConnId}

  unfoldable pub step : Health Conn → PoolOf W → Event Conn ConnId → Outcome (PoolOf W)
  step h s (incoming conn) = add W h s conn true
  step h s (dialed conn) = add W h s conn false
  step h s (replaced conn i inbound) = remove W h s i >>= λ s'. add W h s' conn inbound
  step h s (closed i) = remove W h s i

  unfoldable pub run : PoolOf W → List (Health Conn × Event Conn ConnId) → Outcome (PoolOf W)
  unfolding step
  run s [] = done s
  run s ((h, e) ∷ es) = step h s e >>= λ s'. run s' es

  -- The pool that an operation makes without a panic.
  pub record Kept (o : Outcome (PoolOf W)) : Type 0 where
    pub state : PoolOf W
    pub returns : o ≡ done state
    pub consistent : IsConsistent W state

  add-Kept :
      (h : Health Conn) (s : PoolOf W) (conn : Conn) (inbound : Bool)
      → AreClones W
      → IsConsistent W s
      → Kept (add W h s conn inbound)
  add-Kept h s conn inbound clones v =
      let t = add-Trimmed W h s conn inbound clones v in
      record { state = t.state; returns = t.returns; consistent = t.consistent }

  step-Kept :
      (h : Health Conn) (s : PoolOf W) (e : Event Conn ConnId)
      → AreClones W
      → IsConsistent W s
      → Kept (step h s e)
  unfolding step
  step-Kept h s (incoming conn) clones v = add-Kept h s conn true clones v
  step-Kept h s (dialed conn) clones v = add-Kept h s conn false clones v
  step-Kept h s (replaced conn i inbound) clones v =
      let r = remove-Removed W h s i v in
      rw r.returns (add-Kept h r.state conn inbound clones r.consistent)
  step-Kept h s (closed i) clones v =
      let r = remove-Removed W h s i v in
      record { state = r.state; returns = r.returns; consistent = r.consistent }

  pub run-Kept :
      (s : PoolOf W) (es : List (Health Conn × Event Conn ConnId))
      → AreClones W
      → IsConsistent W s
      → Kept (run s es)
  unfolding run
  run-Kept s [] clones v = record { state = s; returns = refl; consistent = v }
  run-Kept s ((h, e) ∷ es) clones v =
      let x = step-Kept h s e clones v in rw x.returns (run-Kept x.state es clones x.consistent)

  pub new-IsConsistent : (max_pool_size : ℕ) → IsConsistent W (new W max_pool_size)
  unfolding Map.get occurrences
  new-IsConsistent max_pool_size = record {
    unique = tt;
    named = λ i c e. absurd (ground arith);
    indexed = λ p i. refl;
    dialed = λ a p e. absurd (ground arith);
  }

  -- From an empty pool on, whatever connections come, are dialed, replaced and closed, nothing
  -- panics, the lookups afterwards included: that of a peer gives a pooled connection to that peer,
  -- and nothing only where the pool has none; that of an address gives a pooled connection to the
  -- peer of a pooled connection with that address, and nothing only where the address is not recorded.
  pub run-Serves :
      (max_pool_size : ℕ) (es : List (Health Conn × Event Conn ConnId))
      → AreClones W
      → (pick : List ConnId → ℕ) (p : PeerId) (a : Addr)
      → (s : PoolOf W) × (run (new W max_pool_size) es ≡ done s)
        × Serves W pick s p (by_peer_id W pick s p)
        × ServesAddr W pick s a (by_raddr W pick s a)
  run-Serves max_pool_size es clones pick p a =
      let x = run-Kept (new W max_pool_size) es clones (new-IsConsistent max_pool_size) in
      (
        x.state,
        x.returns,
        by_peer_id-Serves W pick x.state p x.consistent,
        by_raddr-ServesAddr W pick x.state a x.consistent,
      )
