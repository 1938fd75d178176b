-- ===== src/Pool.antt =====
-- `RawConnPool` of crates/xstack/src/connector.rs: the pooled connections, with an index by peer and
-- one by the address that was dialed. What a connection reports of itself is a parameter, and so is
-- the random choice among the connections of a peer. A failed `expect` or `assert_eq!` panics.
pub mod Index
pub mod Consistent
pub mod Added
pub mod Limits
pub mod Lookup
pub mod History
pub mod Connect
use xstack.Base.{
  ℕ, ◌+◌, ◌%◌, List, [], ◌∷◌, ◌++◌, Option, none, some, Bool, true, false, ◌||◌, if◌then◌else◌, ite,
  length, get_elem?, ltb, ◌==◌,
}
use xstack.Base.Map
use xstack.Base.Map.{Map}
use xstack.Base.Outcome.{Outcome, done, panic, out_of_fuel, ◌>>=◌, or_panic}

-- What the pool uses of `P2pConn`, `Multiaddr`, `PeerId` and of the strings that name connections.
pub record Wire : Type 1 where
  pub Conn : Type 0
  pub Addr : Type 0
  pub PeerId : Type 0
  pub ConnId : Type 0
  pub addr_discrete : Discrete Addr
  pub peer_discrete : Discrete PeerId
  pub id_discrete : Discrete ConnId
  pub id : Conn → ConnId
  pub peer_of : Conn → PeerId
  pub peer_addr : Conn → Addr

-- What the connections report at one moment.
pub record Health (Conn : Type 0) : Type 0 where
  pub is_closed : Conn → Bool
  pub actives : Conn → ℕ

-- `closed` lists the connections whose `close` the pool has called.
pub record Pool (Conn Addr PeerId ConnId : Type 0) : Type 0 where
  pub max_pool_size : ℕ
  pub raddrs : Map Addr PeerId
  pub peers : Map PeerId (List ConnId)
  pub conns : Map ConnId Conn
  pub closed : List Conn

module _ (W : Wire) where
  open W use {
    Conn, Addr, PeerId, ConnId, addr_discrete, peer_discrete, id_discrete, id, peer_of, peer_addr,
  }

  abbrev pub PoolOf : Type 0
  PoolOf = Pool Conn Addr PeerId ConnId

  -- `RawConnPool::new`.
  abbrev pub new : ℕ → PoolOf
  new max_pool_size = record {
    max_pool_size = max_pool_size;
    raddrs = [];
    peers = [];
    conns = [];
    closed = [];
  }

  -- The removal of the first of the identifiers that is the given one.
  unfoldable pub erase : List ConnId → ConnId → List ConnId
  erase [] i = []
  erase (j ∷ ids) i = ite (id_discrete j i) ids (j ∷ erase ids i)

  abbrev pub put_back : Map PeerId (List ConnId) → PeerId → List ConnId → Map PeerId (List ConnId)
  put_back peers p [] = peers
  put_back peers p (i ∷ ids) = Map.insert peer_discrete p (i ∷ ids) peers

  abbrev pub forget_in :
      Map PeerId (List ConnId) → PeerId → ConnId → Option (List ConnId) → Map PeerId (List ConnId)
  forget_in peers p i none = Map.remove peer_discrete p peers
  forget_in peers p i (some ids) = put_back (Map.remove peer_discrete p peers) p (erase ids i)

  -- The index by peer without a connection.
  unfoldable pub forget : Map PeerId (List ConnId) → PeerId → ConnId → Map PeerId (List ConnId)
  forget peers p i = forget_in peers p i (Map.get peer_discrete p peers)

  abbrev pub push_id : List ConnId → Option (List ConnId) → List ConnId
  push_id new_ids none = new_ids
  push_id new_ids (some ids) = ids ++ new_ids

  -- The end of `add`, on what `insert` gave back of the identifier.
  unfoldable pub place : PoolOf → Conn → Bool → Option Conn → PoolOf
  place s conn inbound (some older) = record s {
    conns = Map.insert id_discrete (id conn) conn s.conns;
  }
  place s conn inbound none = record s {
    conns = Map.insert id_discrete (id conn) conn s.conns;
    raddrs =
        if inbound
        then s.raddrs
        else Map.insert addr_discrete (peer_addr conn) (peer_of conn) s.raddrs;
    peers =
        Map.insert peer_discrete (peer_of conn)
          (push_id (id conn ∷ []) (Map.get peer_discrete (peer_of conn) s.peers)) s.peers;
  }

  module _ (h : Health Conn) where
    -- What `remove` leaves of the pool when it finds the connection.
    abbrev pub without : PoolOf → ConnId → Conn → PoolOf
    without s i conn = record s {
      raddrs = Map.remove addr_discrete (peer_addr conn) s.raddrs;
      peers = forget s.peers (peer_of conn) i;
      conns = Map.remove id_discrete i s.conns;
      closed = if h.is_closed conn then s.closed else s.closed ++ conn ∷ [];
    }

    abbrev pub take_out : PoolOf → ConnId → Option Conn → Outcome PoolOf
    take_out s i none = done s
    take_out s i (some conn) = ite (id_discrete i (id conn)) (done (without s i conn)) panic

    -- `RawConnPool::remove`.
    unfoldable pub remove : PoolOf → ConnId → Outcome PoolOf
    remove s i = take_out s i (Map.get id_discrete i s.conns)

    abbrev pub is_idle : Conn → Bool
    is_idle conn = h.is_closed conn || (h.actives conn == 0)

    unfoldable pub idle_ids : Map ConnId Conn → List ConnId
    idle_ids [] = []
    idle_ids ((i, conn) ∷ conns) =
        let rest = idle_ids conns in if is_idle conn then i ∷ rest else rest

    unfoldable pub remove_all : PoolOf → List ConnId → Outcome PoolOf
    unfolding remove
    remove_all s [] = done s
    remove_all s (i ∷ ids) = remove s i >>= λ s'. remove_all s' ids

    -- `RawConnPool::check_limits`.
    unfoldable pub check_limits : PoolOf → Outcome PoolOf
    unfolding remove_all idle_ids
    check_limits s =
        if ltb s.max_pool_size (length s.conns) then remove_all s (idle_ids s.conns) else done s

    -- `RawConnPool::add`.
    unfoldable pub add : PoolOf → Conn → Bool → Outcome PoolOf
    unfolding check_limits place
    add s conn inbound = check_limits s >>= λ s'.
        done (place s' conn inbound (Map.get id_discrete (id conn) s'.conns))

  module _ (pick : List ConnId → ℕ) where
    -- `choose`: one of the identifiers, if there is one.
    abbrev pub choose : List ConnId → Option ConnId
    choose ids = get_elem? ids (pick ids % length ids)

    abbrev pub expect_conn : PoolOf → Option ConnId → Outcome (Option Conn)
    expect_conn s none = done none
    expect_conn s (some i) = or_panic (Map.get id_discrete i s.conns) >>= λ conn. done (some conn)

    abbrev pub from_ids : PoolOf → Option (List ConnId) → Outcome (Option Conn)
    from_ids s none = done none
    from_ids s (some ids) = expect_conn s (choose ids)

    -- `RawConnPool::by_peer_id`.
    unfoldable pub by_peer_id : PoolOf → PeerId → Outcome (Option Conn)
    by_peer_id s p = from_ids s (Map.get peer_discrete p s.peers)

    abbrev pub from_peer : PoolOf → Option PeerId → Outcome (Option Conn)
    from_peer s none = done none
    from_peer s (some p) = by_peer_id s p

    -- `RawConnPool::by_raddr`.
    unfoldable pub by_raddr : PoolOf → Addr → Outcome (Option Conn)
    unfolding by_peer_id
    by_raddr s a = from_peer s (Map.get addr_discrete a s.raddrs)
