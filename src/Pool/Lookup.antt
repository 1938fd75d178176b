-- ===== src/Pool/Lookup.antt =====
-- The lookups of the connection pool, whose `expect` the index must not fail.
use native.Mathlib.Nat.{mod-lt}
use native.Mathlib.Omega.{arith}
use xstack.Base.{
  ℕ, zero, suc, ◌%◌, ◌<◌, ◌≡◌, ◌⊎◌, inl, inr, refl, List, [], ◌∷◌, Option, none, some, length,
  get_elem?, get_elem?-some, Option-cases,
}
use xstack.Base.Map
use xstack.Base.Outcome.{Outcome, done}
use xstack.Pool.{Wire, PoolOf, by_peer_id, by_raddr, expect_conn, from_ids, from_peer}
use xstack.Pool.Index.{occurrences, ids_of}
use xstack.Pool.Consistent.{find, Held, IsConsistent}

module _ (W : Wire) (pick : List W.ConnId → ℕ) where
  open W use {
    Conn, Addr, PeerId, ConnId, addr_discrete, peer_discrete, id_discrete, peer_of, peer_addr,
  }

  -- A lookup of a peer gives a pooled connection to it, and nothing only where there is none.
  abbrev pub Serves : PoolOf W → PeerId → Outcome (Option Conn) → Type 0
  Serves s p o =
      ((o ≡ done none) × ((c : Conn) → ¬ Held W s p c))
      ⊎ ((c : Conn) × (o ≡ done (some c)) × Held W s p c)

  occurrences-get_elem? :
      (ids : List ConnId) (n : ℕ) (i : ConnId) → get_elem? ids n ≡ some i → 0 < occurrences W i ids
  unfolding occurrences
  occurrences-get_elem? [] n i e = absurd (ground arith)
  occurrences-get_elem? (j ∷ ids) zero i e = ground (arith, e)
  occurrences-get_elem? (j ∷ ids) (suc n) i e = omega (arith, occurrences-get_elem? ids n i e)

  expect-Held :
      (s : PoolOf W) (p : PeerId) (i : ConnId)
      → IsConsistent W s
      → 0 < occurrences W i (ids_of W s.peers p)
      → (c : Conn) × (expect_conn W pick s (some i) ≡ done (some c)) × Held W s p c
  expect-Held s p i v listed = elim (Option-cases (find W s i)) [
    | inl e ↦ absurd (ground (arith, v.indexed p i, e, listed))
    | inr (c, e) ↦ (
      c,
      rw e refl,
      record { name = i; found = e; of_peer = ground (arith, v.indexed p i, e, listed) },
    )
  ]

  unlisted :
      (s : PoolOf W) (p : PeerId)
      → IsConsistent W s
      → ids_of W s.peers p ≡ []
      → (c : Conn) → ¬ Held W s p c
  unfolding occurrences
  unlisted s p v e c held = ground (arith, v.indexed p held.name, e, held.found, held.of_peer)

  pub by_peer_id-Serves :
      (s : PoolOf W) (p : PeerId) → IsConsistent W s → Serves s p (by_peer_id W pick s p)
  unfolding by_peer_id
  by_peer_id-Serves s p v = go (Map.get peer_discrete p s.peers) refl
    where
      go :
          (o : Option (List ConnId))
          → Map.get peer_discrete p s.peers ≡ o
          → Serves s p (from_ids W pick s o)
      go none e = inl (refl, unlisted s p v (rw e refl))
      go (some []) e = inl (refl, unlisted s p v (rw e refl))
      go (some (j ∷ ids)) e =
          let n = pick (j ∷ ids) % length (j ∷ ids) in
          let (i, at) = get_elem?-some (j ∷ ids) n (mod-lt (pick (j ∷ ids)) (omega arith)) in
          let (c, r, held) = expect-Held s p i v (rw e (occurrences-get_elem? (j ∷ ids) n i at)) in
          inr (c, rw at r, held)

  -- A lookup of an address gives a connection to a peer that was dialed there, or nothing where no
  -- connection to it is known.
  abbrev pub ServesAddr : PoolOf W → Addr → Outcome (Option Conn) → Type 0
  ServesAddr s a o =
      ((o ≡ done none) × (Map.get addr_discrete a s.raddrs ≡ none))
      ⊎ ((c d : Conn) × (o ≡ done (some c))
          × (peer_addr d ≡ a)
          × Held W s (peer_of d) c
          × Held W s (peer_of d) d)

  pub by_raddr-ServesAddr :
      (s : PoolOf W) (a : Addr) → IsConsistent W s → ServesAddr s a (by_raddr W pick s a)
  unfolding by_raddr
  by_raddr-ServesAddr s a v = go (Map.get addr_discrete a s.raddrs) refl
    where
      go :
          (o : Option PeerId)
          → Map.get addr_discrete a s.raddrs ≡ o
          → ServesAddr s a (from_peer W pick s o)
      go none e = inl (refl, e)
      go (some p) e =
          let (d, held, at) = v.dialed a p e in
          elim (by_peer_id-Serves s p v) [
            | inl (r, never) ↦ absurd (never d held)
            | inr (c, r, of_p) ↦ inr (c, d, r, at, rw held.of_peer of_p, rw held.of_peer held)
          ]
