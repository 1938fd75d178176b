-- ===== src/Pool/Index.antt =====
-- The index by peer of the connection pool: how often a connection stands in the list of a peer.
use native.Mathlib.Omega.{arith}
use xstack.Base.{
  ℕ, ◌+◌, ◌-◌, ◌≡◌, List, [], ◌∷◌, ◌++◌, Option, none, some, ite, inl, inr, Option-cases,
}
use xstack.Base.Map
use xstack.Base.Map.{Map, get-insert, get-remove}
use xstack.Pool.{Wire, erase, forget, put_back, push_id}

module _ (W : Wire) where
  open W use {Conn, PeerId, ConnId, peer_discrete, id_discrete, peer_of}

  unfoldable pub occurrences : ConnId → List ConnId → ℕ
  occurrences i [] = 0
  occurrences i (j ∷ ids) = ite (id_discrete j i) 1 0 + occurrences i ids

  abbrev pub listed : Option (List ConnId) → List ConnId
  listed none = []
  listed (some ids) = ids

  abbrev pub ids_of : Map PeerId (List ConnId) → PeerId → List ConnId
  ids_of peers p = listed (Map.get peer_discrete p peers)

  pub occurrences-append :
      (i : ConnId) (xs ys : List ConnId)
      → occurrences i (xs ++ ys) ≡ occurrences i xs + occurrences i ys
  unfolding occurrences
  occurrences-append i [] ys = omega arith
  occurrences-append i (x ∷ xs) ys = omega (arith, occurrences-append i xs ys)

  pub occurrences-erase :
      (i j : ConnId) (xs : List ConnId)
      → occurrences j (erase W xs i)
        ≡ ite (id_discrete i j) (occurrences j xs - 1) (occurrences j xs)
  unfolding occurrences erase
  occurrences-erase i j [] = ground arith
  occurrences-erase i j (x ∷ xs) = ground (arith, occurrences-erase i j xs)

  pub ids_of-push :
      (peers : Map PeerId (List ConnId)) (p q : PeerId) (new_ids : List ConnId)
      → ids_of
          (Map.insert peer_discrete p (push_id W new_ids (Map.get peer_discrete p peers)) peers)
          q
        ≡ ite (peer_discrete p q) (ids_of peers p ++ new_ids) (ids_of peers q)
  ids_of-push peers p q new_ids = elim (Option-cases (Map.get peer_discrete p peers)) [
    | inl e ↦ ground (arith, e, get-insert peer_discrete p q new_ids peers)
    | inr (ids, e) ↦ ground (arith, e, get-insert peer_discrete p q (ids ++ new_ids) peers)
  ]

  ids_of-put_back :
      (peers : Map PeerId (List ConnId)) (p q : PeerId) (ids : List ConnId)
      → ids_of (put_back W (Map.remove peer_discrete p peers) p ids) q
        ≡ ite (peer_discrete p q) ids (ids_of peers q)
  ids_of-put_back peers p q [] = ground (arith, get-remove peer_discrete p q peers)
  ids_of-put_back peers p q (j ∷ ids) = ground (
    arith,
    get-insert peer_discrete p q (j ∷ ids) (Map.remove peer_discrete p peers),
    get-remove peer_discrete p q peers,
  )

  pub ids_of-forget :
      (peers : Map PeerId (List ConnId)) (p q : PeerId) (i : ConnId)
      → ids_of (forget W peers p i) q
        ≡ ite (peer_discrete p q) (erase W (ids_of peers p) i) (ids_of peers q)
  unfolding forget erase
  ids_of-forget peers p q i = elim (Option-cases (Map.get peer_discrete p peers)) [
    | inl e ↦ ground (arith, e, get-remove peer_discrete p q peers)
    | inr (ids, e) ↦ rw e (ids_of-put_back peers p q (erase W ids i))
  ]
