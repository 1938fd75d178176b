-- ===== src/Pool/Added.antt =====
-- Putting a connection into the pool keeps it consistent.
use native.Mathlib.Omega.{arith}
use xstack.Base.{
  ◌≡◌, refl, sym, ◌∙◌, [], ◌∷◌, Option, none, some, Bool, true, false, if_pos, if_neg,
}
use xstack.Base.Map
use xstack.Base.Map.{Map, insert-IsMap, get-insert, get-insert_self}
use xstack.Pool.{Wire, PoolOf, place}
use xstack.Pool.Index.{occurrences, ids_of, occurrences-append, ids_of-push}
use xstack.Pool.Consistent.{AreClones, find, Held, IsConsistent}

module _ (W : Wire) where
  open W use {
    Conn, Addr, PeerId, ConnId, addr_discrete, peer_discrete, id_discrete, id, peer_of, peer_addr,
  }

  pub place-IsConsistent :
      (s : PoolOf W) (conn : Conn) (inbound : Bool)
      → AreClones W
      → IsConsistent W s
      → IsConsistent W (place W s conn inbound (find W s (id conn)))
  unfolding place occurrences
  place-IsConsistent s conn inbound clones v = go (find W s (id conn)) refl
    where
      moved :
          (t : PoolOf W)
          → t.conns ≡ Map.insert id_discrete (id conn) conn s.conns
          → (p : PeerId) (a : Addr) → (c : Conn) × Held W s p c × (peer_addr c ≡ a)
          → (c : Conn) × Held W t p c × (peer_addr c ≡ a)
      moved t u p a (c, held, at) = elim (id_discrete (id conn) held.name) [
        | yes same ↦ (
          conn,
          record {
            name = held.name;
            found =
                rw
                  (
                    u,
                    get-insert id_discrete (id conn) held.name conn s.conns,
                    if_pos (id_discrete (id conn) held.name) same,
                  )
                  refl;
            of_peer =
                (clones conn c (same ∙ sym (v.named held.name c held.found))).0 ∙ held.of_peer;
          },
          (clones conn c (same ∙ sym (v.named held.name c held.found))).1 ∙ at,
        )
        | no other ↦ (
          c,
          record {
            name = held.name;
            found =
                rw
                  (
                    u,
                    get-insert id_discrete (id conn) held.name conn s.conns,
                    if_neg (id_discrete (id conn) held.name) other,
                  )
                  held.found;
            of_peer = held.of_peer;
          },
          at,
        )
      ]

      dialed_new :
          (inbound : Bool)
          → find W s (id conn) ≡ none
          → (a : Addr) (p : PeerId)
          → Map.get addr_discrete a (place W s conn inbound none).raddrs ≡ some p
          → (c : Conn) × Held W (place W s conn inbound none) p c × (peer_addr c ≡ a)
      dialed_new true e a p g = moved (place W s conn true none) refl p a (v.dialed a p g)
      dialed_new false e a p g = elim (addr_discrete (peer_addr conn) a) [
        | yes same ↦ (
          conn,
          record {
            name = id conn;
            found = get-insert_self id_discrete (id conn) conn s.conns;
            of_peer =
                ground
                  (arith, g, get-insert addr_discrete (peer_addr conn) a (peer_of conn) s.raddrs);
          },
          same,
        )
        | no other ↦ moved (place W s conn false none) refl p a (
            v.dialed a p (
              ground
                (arith, g, get-insert addr_discrete (peer_addr conn) a (peer_of conn) s.raddrs)))
      ]

      go : (o : Option Conn) → find W s (id conn) ≡ o → IsConsistent W (place W s conn inbound o)
      go (some older) e = record {
        unique = insert-IsMap id_discrete (id conn) conn s.conns v.unique;
        named = λ i c f.
            ground (arith, f, get-insert id_discrete (id conn) i conn s.conns, v.named i c);
        indexed = λ p i. ground (
          arith,
          e,
          v.indexed p i,
          get-insert id_discrete (id conn) i conn s.conns,
          (clones conn older (sym (v.named (id conn) older e))).0,
        );
        dialed = λ a p g. moved (place W s conn inbound (some older)) refl p a (v.dialed a p g);
      }
      go none e = record {
        unique = insert-IsMap id_discrete (id conn) conn s.conns v.unique;
        named = λ i c f.
            ground (arith, f, get-insert id_discrete (id conn) i conn s.conns, v.named i c);
        indexed = λ p i.
            rw
              (
                ids_of-push W s.peers (peer_of conn) p (id conn ∷ []),
                get-insert id_discrete (id conn) i conn s.conns,
              )
              (ground (
                arith,
                e,
                v.indexed p i,
                v.indexed (peer_of conn) i,
                occurrences-append W i (ids_of W s.peers (peer_of conn)) (id conn ∷ []),
              ));
        dialed = λ a p g. dialed_new inbound e a p g;
      }
