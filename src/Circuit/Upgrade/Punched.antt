-- ===== src/Circuit/Upgrade/Punched.antt =====
-- What hole punching makes of the pool.
use Prim.Native.String.{String}
use xstack.Base.{
  ℕ, ◌≡◌, refl, ◌⊎◌, inl, inr, List, [], ◌∷◌, Option, none, some, Bool, true, false, All,
  Bool-cases, if_pos, ite, ltb, length,
}
use xstack.Base.Text.{text_discrete}
use xstack.Base.Outcome.{done}
use xstack.Base.Result.{Result, ok, err}
use xstack.Multiaddr.{is_quic_transport}
use xstack.Rpc.{Io}
use xstack.Pool as Pools
use xstack.Pool.Consistent.{AreClones, IsConsistent, find, remove-Removed}
use xstack.Pool.Limits.{stays, add-Trimmed}
use xstack.Switch.State.{Net, Addr, Failure, wire}
use xstack.Circuit.{Error, xstack_error}
use xstack.Circuit.Calls.{Codec, dcutr_recv_connect, dcutr_send_connect, dcutr_recv_sync}
use xstack.Circuit.Upgrade.{
  find_quic, push_pair, pair_up, Upgraded, replace, try_each, on_sync, on_sent, on_pairs,
  on_connect, upgrade,
}

module _ (N : Net) (h : Pools.Health N.Conn)
    (transport_connect : Addr N → Result N.Conn (Failure N)) (replaced : String) where
  -- A pool in which a connection that is dialed directly stands in the place of `replaced`.
  pub record IsReplaced (pool' : Pools.PoolOf (wire N)) : Type 0 where
    pub conn : N.Conn
    pub addr : Addr N
    pub is_direct : is_quic_transport addr ≡ true
    pub dialed : transport_connect addr ≡ ok conn
    pub consistent : IsConsistent (wire N) pool'
    pub held : find (wire N) pool' (N.id conn) ≡ some conn
    pub left :
        find (wire N) pool' replaced ≡ ite (text_discrete (N.id conn) replaced) (some conn) none

  -- An upgrade that returns; either it leaves the pool as it is, or it succeeds and replaces.
  pub record Punched (pool : Pools.PoolOf (wire N)) (o : Upgraded N) : Type 0 where
    pub result : Result (Unit {0}) (Error N)
    pub after : Pools.PoolOf (wire N)
    pub returns : o ≡ done (result, after)
    pub effect : (after ≡ pool) ⊎ ((result ≡ ok tt) × IsReplaced after)

  same_pool :
      (pool : Pools.PoolOf (wire N)) (r : Result (Unit {0}) (Error N))
      → Punched pool (done (r, pool))
  same_pool pool r = record { result = r; after = pool; returns = refl; effect = inl refl }

  AreDirect : List (Addr N) → Type 0
  AreDirect addrs = All (λ addr. is_quic_transport addr ≡ true) addrs

  push_pair-AreDirect :
      (addr : Addr N) (o : Option (Addr N)) (pairs : List (Addr N) × List (Addr N))
      → is_quic_transport addr ≡ true
      → AreDirect (pairs.1)
      → AreDirect ((push_pair N addr o pairs).1)
  unfolding AreDirect
  push_pair-AreDirect addr none (laddrs, sync_addrs) e all = all
  push_pair-AreDirect addr (some laddr) (laddrs, sync_addrs) e all = (e, all)

  pair_up-AreDirect : (observed raddrs : List (Addr N)) → AreDirect ((pair_up N observed raddrs).1)
  unfolding pair_up AreDirect
  pair_up-AreDirect observed [] = tt
  pair_up-AreDirect observed (addr ∷ raddrs) = elim (Bool-cases (is_quic_transport addr)) [
    | inl quic ↦ rw quic (
        push_pair-AreDirect addr (find_quic N observed) (pair_up N observed raddrs) quic
          (pair_up-AreDirect observed raddrs))
    | inr other ↦ rw other (pair_up-AreDirect observed raddrs)
  ]

  stays-none : (over : Bool) → stays (wire N) h over none ≡ none
  stays-none true = refl
  stays-none false = refl

  module _ (clones : AreClones (wire N)) where
    replace-Punched :
        (pool : Pools.PoolOf (wire N)) (addr : Addr N) (conn : N.Conn)
        → IsConsistent (wire N) pool
        → is_quic_transport addr ≡ true
        → transport_connect addr ≡ ok conn
        → (pool' : Pools.PoolOf (wire N)) × (replace N h conn replaced pool ≡ done pool')
          × IsReplaced pool'
    replace-Punched pool addr conn v direct dialed =
        let r = remove-Removed (wire N) h pool replaced v in
        let t = add-Trimmed (wire N) h r.state conn false clones r.consistent in
        (
          t.state,
          rw r.returns t.returns,
          record {
            conn = conn;
            addr = addr;
            is_direct = direct;
            dialed = dialed;
            consistent = t.consistent;
            held =
                rw (t.left (N.id conn), if_pos (text_discrete (N.id conn) (N.id conn)) refl) refl;
            left =
                rw
                  (
                    t.left replaced,
                    r.left replaced,
                    if_pos (text_discrete replaced replaced) refl,
                    stays-none (ltb r.state.max_pool_size (length r.state.conns)),
                  )
                  refl;
          },
        )

    -- One round of the loop, on what the dial gives.
    dial-Punched :
        (pool : Pools.PoolOf (wire N)) (last_error : Option (Failure N)) (addr : Addr N)
        (addrs : List (Addr N)) (r : Result N.Conn (Failure N))
        → IsConsistent (wire N) pool
        → is_quic_transport addr ≡ true
        → ((e : Failure N)
            → Punched pool (try_each N h transport_connect replaced pool (some e) addrs))
        → transport_connect addr ≡ r
        → Punched pool (try_each N h transport_connect replaced pool last_error (addr ∷ addrs))
    unfolding try_each
    dial-Punched pool last_error addr addrs (ok conn) v direct later dialed =
        let (pool', returns, replaces) = replace-Punched pool addr conn v direct dialed in
        record {
          result = ok tt;
          after = pool';
          returns = rw (try_each, dialed, returns) refl;
          effect = inr (refl, replaces);
        }
    dial-Punched pool last_error addr addrs (err e) v direct later dialed =
        rw (try_each, dialed) (later e)

    try_each-Punched :
        (pool : Pools.PoolOf (wire N)) (e : Failure N) (addrs : List (Addr N))
        → IsConsistent (wire N) pool
        → AreDirect addrs
        → Punched pool (try_each N h transport_connect replaced pool (some e) addrs)
    unfolding try_each AreDirect
    try_each-Punched pool e [] v direct = same_pool pool (err (xstack_error e))
    try_each-Punched pool e (addr ∷ addrs) v direct =
        dial-Punched pool (some e) addr addrs (transport_connect addr) v direct.0
          (λ e'. try_each-Punched pool e' addrs v direct.1) refl

    module _ (C : Codec N) where
      on_sync-Punched :
          (pool : Pools.PoolOf (wire N)) (addr : Addr N) (addrs : List (Addr N))
          (o : Result (Unit {0}) (Error N) × Io)
          → IsConsistent (wire N) pool
          → AreDirect (addr ∷ addrs)
          → Punched pool (on_sync N h transport_connect replaced pool (addr ∷ addrs) o)
      unfolding try_each AreDirect
      on_sync-Punched pool addr addrs (err e, io) v direct = same_pool pool (err e)
      on_sync-Punched pool addr addrs (ok u, io) v direct =
          dial-Punched pool none addr addrs (transport_connect addr) v direct.0
            (λ e. try_each-Punched pool e addrs v direct.1) refl

      on_sent-Punched :
          (max : ℕ) (pool : Pools.PoolOf (wire N)) (addr : Addr N) (addrs : List (Addr N))
          (o : Result (Unit {0}) (Error N) × Io)
          → IsConsistent (wire N) pool
          → AreDirect (addr ∷ addrs)
          → Punched pool (on_sent N C h transport_connect max replaced pool (addr ∷ addrs) o)
      on_sent-Punched max pool addr addrs (err e, io) v direct = same_pool pool (err e)
      on_sent-Punched max pool addr addrs (ok u, io) v direct =
          on_sync-Punched pool addr addrs (dcutr_recv_sync N C max io) v direct

      on_pairs-Punched :
          (max : ℕ) (pool : Pools.PoolOf (wire N)) (io : Io) (pairs : List (Addr N) × List (Addr N))
          → IsConsistent (wire N) pool
          → AreDirect (pairs.1)
          → Punched pool (on_pairs N C h transport_connect max replaced pool io pairs)
      on_pairs-Punched max pool io (laddrs, []) v direct = same_pool pool (ok tt)
      on_pairs-Punched max pool io (laddrs, addr ∷ addrs) v direct =
          on_sent-Punched max pool addr addrs (dcutr_send_connect N C laddrs io) v direct

      on_connect-Punched :
          (max : ℕ) (observed : List (Addr N)) (pool : Pools.PoolOf (wire N))
          (o : Result (List (Addr N)) (Error N) × Io)
          → IsConsistent (wire N) pool
          → Punched pool (on_connect N C h transport_connect max replaced observed pool o)
      on_connect-Punched max observed pool (err e, io) v = same_pool pool (err e)
      on_connect-Punched max observed pool (ok raddrs, io) v =
          on_pairs-Punched max pool io (pair_up N observed raddrs) v
            (pair_up-AreDirect observed raddrs)

      -- `upgrade` does not panic on a consistent pool. Either it leaves the pool as it is; or it succeeds,
      -- and a connection that was dialed at a QUIC address without a relay is in the pool, which is
      -- consistent and in which the relayed connection is found no longer, unless the two have one
      -- identifier.
      pub upgrade-Punched :
          (max : ℕ) (observed : List (Addr N)) (io : Io) (pool : Pools.PoolOf (wire N))
          → IsConsistent (wire N) pool
          → Punched pool (upgrade N C h transport_connect max replaced observed io pool)
      unfolding upgrade
      upgrade-Punched max observed io pool v =
          on_connect-Punched max observed pool (dcutr_recv_connect N C max io) v
