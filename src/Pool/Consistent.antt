-- ===== src/Pool/Consistent.antt =====
-- The consistency that the `expect`s of the connection pool rely on, kept by `remove` and `add`.
use native.Mathlib.Omega.{arith}
use xstack.Base.{
  ℕ, ◌≡◌, ◌≢◌, refl, sym, Option, none, some, ite, inl, inr, Option-cases, if_pos, if_neg,
}
use xstack.Base.Map
use xstack.Base.Map.{Map, IsMap, remove-IsMap, get-insert, get-remove}
use xstack.Base.Outcome.{Outcome, done}
use xstack.Pool.{Wire, Health, PoolOf, without, forget, remove}
use xstack.Pool.Index.{occurrences, ids_of, occurrences-erase, ids_of-forget}

-- Two handles with one identifier are clones of one connection.
abbrev pub AreClones : Wire → Type 0
AreClones W =
    (c d : W.Conn) → W.id c ≡ W.id d → (W.peer_of c ≡ W.peer_of d) × (W.peer_addr c ≡ W.peer_addr d)

module _ (W : Wire) where
  open W use {
    Conn, Addr, PeerId, ConnId, addr_discrete, peer_discrete, id_discrete, id, peer_of, peer_addr,
  }

  abbrev pub find : PoolOf W → ConnId → Option Conn
  find s i = Map.get id_discrete i s.conns

  -- How often the index should list a connection with a peer.
  abbrev pub present : PeerId → Option Conn → ℕ
  present p none = 0
  present p (some conn) = ite (peer_discrete (peer_of conn) p) 1 0

  -- A connection of a peer that the pool holds.
  pub record Held (s : PoolOf W) (p : PeerId) (c : Conn) : Type 0 where
    pub name : ConnId
    pub found : find s name ≡ some c
    pub of_peer : peer_of c ≡ p

  -- Each connection is stored under its identifier, and listed once with its peer and with no other;
  -- each dialed address leads to the peer of a pooled connection to it.
  pub record IsConsistent (s : PoolOf W) : Type 0 where
    pub unique : IsMap id_discrete s.conns
    pub named : (i : ConnId) (c : Conn) → find s i ≡ some c → id c ≡ i
    pub indexed :
        (p : PeerId) (i : ConnId) → occurrences W i (ids_of W s.peers p) ≡ present p (find s i)
    pub dialed :
        (a : Addr) (p : PeerId)
        → Map.get addr_discrete a s.raddrs ≡ some p
        → (c : Conn) × Held s p c × (peer_addr c ≡ a)

  occurrences-forget :
      (s : PoolOf W) (conn : Conn) (p : PeerId) (i j : ConnId)
      → IsConsistent s
      → find s i ≡ some conn
      → occurrences W j (ids_of W (forget W s.peers (peer_of conn) i) p)
        ≡ present p (Map.get id_discrete j (Map.remove id_discrete i s.conns))
  occurrences-forget s conn p i j c e =
      rw (ids_of-forget W s.peers (peer_of conn) p i, get-remove id_discrete i j s.conns)
        (ground (
          arith,
          c.indexed p j,
          c.indexed (peer_of conn) j,
          c.indexed (peer_of conn) i,
          occurrences-erase W i j (ids_of W s.peers (peer_of conn)),
          e,
        ))

  -- The pool after `remove`, and what is left in it.
  pub record Removed (s : PoolOf W) (i : ConnId) (o : Outcome (PoolOf W)) : Type 0 where
    pub state : PoolOf W
    pub returns : o ≡ done state
    pub consistent : IsConsistent state
    pub left : (j : ConnId) → find state j ≡ ite (id_discrete i j) none (find s j)

  dialed-remove :
      (s : PoolOf W) (conn : Conn) (i : ConnId) (t : PoolOf W)
      → IsConsistent s
      → find s i ≡ some conn
      → t.conns ≡ Map.remove id_discrete i s.conns
      → (a : Addr) (p : PeerId)
      → Map.get addr_discrete a (Map.remove addr_discrete (peer_addr conn) s.raddrs) ≡ some p
      → (c : Conn) × Held t p c × (peer_addr c ≡ a)
  dialed-remove s conn i t v e u a p g =
      let other : peer_addr conn ≢ a =
        ground (arith, g, get-remove addr_discrete (peer_addr conn) a s.raddrs) in
      let old : Map.get addr_discrete a s.raddrs ≡ some p =
        ground (arith, g, get-remove addr_discrete (peer_addr conn) a s.raddrs) in
      let (c, held, at) = v.dialed a p old in
      let apart : i ≢ held.name = λ same. other (ground (arith, e, held.found, at, same)) in
      (
        c,
        record {
          name = held.name;
          found =
              rw
                (
                  u,
                  get-remove id_discrete i held.name s.conns,
                  if_neg (id_discrete i held.name) apart,
                )
                held.found;
          of_peer = held.of_peer;
        },
        at,
      )

  -- `remove` does not panic on a consistent pool; it is consistent after it, the connection with the
  -- given identifier is gone, and every other one is found as before.
  pub remove-Removed :
      (h : Health Conn) (s : PoolOf W) (i : ConnId) → IsConsistent s → Removed s i (remove W h s i)
  unfolding remove
  remove-Removed h s i v = elim (Option-cases (find s i)) [
    | inl e ↦ record {
      state = s;
      returns = rw e refl;
      consistent = v;
      left = λ j. ground (arith, e);
    }
    | inr (conn, e) ↦ record {
      state = without W h s i conn;
      returns = rw (e, if_pos (id_discrete i (id conn)) (sym (v.named i conn e))) refl;
      consistent = record {
        unique = remove-IsMap id_discrete i s.conns v.unique;
        named = λ j c f. v.named j c (ground (arith, f, get-remove id_discrete i j s.conns));
        indexed = λ p j. occurrences-forget s conn p i j v e;
        dialed = dialed-remove s conn i (without W h s i conn) v e refl;
      };
      left = λ j. get-remove id_discrete i j s.conns;
    }
  ]
