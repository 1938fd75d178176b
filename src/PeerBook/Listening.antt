-- ===== src/PeerBook/Listening.antt =====
-- What `get` and `listen_on` of the peer book give after `insert` and `remove`.
use xstack.Base.{arith, ◌≡◌, refl, List, [], ◌∷◌, none, some, true, if◌then◌else◌, ite, contains}
use xstack.Base.Map
use xstack.Base.Map.{Map, get-insert, get-remove}
use xstack.PeerBook.{
  Names, PeerInfo, Book, remove_addrs, insert_addrs, addrs_of, insert, remove, get, listen_on,
}

module _ (N : Names) where
  open N use {PeerId, Addr, peer_discrete, addr_discrete}

  get-remove_addrs :
      (addrs : List Addr) (m : Map Addr PeerId) (a : Addr)
      → Map.get addr_discrete a (remove_addrs N addrs m)
        ≡ (if contains addr_discrete addrs a then none else Map.get addr_discrete a m)
  unfolding remove_addrs
  get-remove_addrs [] m a = refl
  get-remove_addrs (x ∷ addrs) m a = ground (
    arith,
    get-remove_addrs addrs (Map.remove addr_discrete x m) a,
    get-remove addr_discrete x a m,
  )

  get-insert_addrs :
      (p : PeerId) (addrs : List Addr) (m : Map Addr PeerId) (a : Addr)
      → Map.get addr_discrete a (insert_addrs N p addrs m)
        ≡ (if contains addr_discrete addrs a then some p else Map.get addr_discrete a m)
  unfolding insert_addrs
  get-insert_addrs p [] m a = refl
  get-insert_addrs p (x ∷ addrs) m a = ground (
    arith,
    get-insert_addrs p addrs (Map.insert addr_discrete x p m) a,
    get-insert addr_discrete x a p m,
  )

  -- After `insert` the peer is known as it was given, but for `disappear`, which is cleared, and what
  -- is known of the others is unchanged. An address of the new version leads to the peer, one of the
  -- older version alone leads nowhere, and any other leads where it did.
  pub insert_lem :
      (b : Book N) (info : PeerInfo N) (p : PeerId) (a : Addr)
      → ((insert N b info).1 ≡ get N b info.id)
        × (get N (insert N b info).0 p
            ≡ ite (peer_discrete info.id p) (some (record info { disappear = none })) (get N b p))
        × (listen_on N (insert N b info).0 a ≡ (
            if contains addr_discrete info.addrs a
            then some info.id
            else if contains addr_discrete (addrs_of N (get N b info.id)) a
            then none
            else listen_on N b a))
  unfolding insert
  insert_lem b info p a = (
    refl,
    get-insert peer_discrete info.id p (record info { disappear = none }) b.peer_infos,
    rw
        (
          get-insert_addrs info.id info.addrs
              (remove_addrs N (addrs_of N (get N b info.id)) b.peer_addrs) a,
          get-remove_addrs (addrs_of N (get N b info.id)) b.peer_addrs a,
        )
        refl,
  )

  -- After `remove` the peer is unknown, and its addresses lead nowhere; the others are as they were.
  pub remove_lem :
      (b : Book N) (p q : PeerId) (a : Addr)
      → ((remove N b p).1 ≡ get N b p)
        × (get N (remove N b p).0 q ≡ ite (peer_discrete p q) none (get N b q))
        × (listen_on N (remove N b p).0 a
            ≡ (if contains addr_discrete (addrs_of N (get N b p)) a then none else listen_on N b a))
  unfolding remove
  remove_lem b p q a = (
    refl,
    get-remove peer_discrete p q b.peer_infos,
    get-remove_addrs (addrs_of N (get N b p)) b.peer_addrs a,
  )

  -- Of two peers that share an address, the removal of one leaves the address with neither, although
  -- the other is still known with it.
  pub remove-shared :
      (b : Book N) (info other : PeerInfo N) (a : Addr)
      → ¬ (info.id ≡ other.id)
      → contains addr_discrete info.addrs a ≡ true
      → contains addr_discrete other.addrs a ≡ true
      → (listen_on N (remove N (insert N (insert N b info).0 other).0 info.id).0 a ≡ none)
        × (get N (remove N (insert N (insert N b info).0 other).0 info.id).0 other.id
            ≡ some (record other { disappear = none }))
  remove-shared b info other a apart at at' =
      let b' = (insert N b info).0 in
      let b'' = (insert N b' other).0 in
      let known : get N b'' info.id ≡ some (record info { disappear = none }) =
        ground (arith, (insert_lem b' other info.id a).1, (insert_lem b info info.id a).1) in
      (
        rw ((remove_lem b'' info.id other.id a).2, known, at) refl,
        ground (arith, (remove_lem b'' info.id other.id a).1, (insert_lem b' other other.id a).1),
      )
