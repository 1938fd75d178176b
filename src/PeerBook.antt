-- ===== src/PeerBook.antt =====
-- `MemoryPeerBook` of crates/xstack/src/book.rs: what is known of each peer, and which peer listens on
-- an address. Times, addresses and peer identifiers are parameters, and so is the random choice.
pub mod Listening
pub mod Relays
pub mod History
use mathlib.Core.Option
use xstack.Base.{
  ℕ, List, [], ◌∷◌, ◌++◌, Option, none, some, Bool, true, false, if◌then◌else◌, length, contains,
  ◌==◌,
}
use xstack.Base.Map
use xstack.Base.Map.{Map}

-- What the book uses of `PeerId`, `Multiaddr`, `String` and `SystemTime`.
pub record Names : Type 1 where
  pub PeerId : Type 0
  pub Addr : Type 0
  pub Protocol : Type 0
  pub Time : Type 0
  pub peer_discrete : Discrete PeerId
  pub addr_discrete : Discrete Addr
  pub protocol_discrete : Discrete Protocol

pub record PeerInfo (N : Names) : Type 0 where
  pub id : N.PeerId
  pub addrs : List N.Addr
  pub protos : List N.Protocol
  pub appear : Option N.Time
  pub disappear : Option N.Time

pub record Book (N : Names) : Type 0 where
  pub peer_infos : Map N.PeerId (PeerInfo N)
  pub peer_addrs : Map N.Addr N.PeerId

module _ (N : Names) where
  open N use {PeerId, Addr, Protocol, Time, peer_discrete, addr_discrete, protocol_discrete}

  -- `MemoryPeerBook::default`.
  abbrev pub empty : Book N
  empty = record { peer_infos = []; peer_addrs = [] }

  -- The `for` loops over the addresses of a peer.
  unfoldable pub remove_addrs : List Addr → Map Addr PeerId → Map Addr PeerId
  remove_addrs [] m = m
  remove_addrs (a ∷ addrs) m = remove_addrs addrs (Map.remove addr_discrete a m)

  unfoldable pub insert_addrs : PeerId → List Addr → Map Addr PeerId → Map Addr PeerId
  insert_addrs p [] m = m
  insert_addrs p (a ∷ addrs) m = insert_addrs p addrs (Map.insert addr_discrete a p m)

  abbrev pub addrs_of : Option (PeerInfo N) → List Addr
  addrs_of none = []
  addrs_of (some info) = info.addrs

  -- `insert`: the book, and the older version if there was one.
  unfoldable pub insert : Book N → PeerInfo N → Book N × Option (PeerInfo N)
  unfolding remove_addrs insert_addrs
  insert b info =
      let older = Map.get peer_discrete info.id b.peer_infos in
      (
        record {
          peer_infos =
              Map.insert peer_discrete info.id (record info { disappear = none }) b.peer_infos;
          peer_addrs = insert_addrs info.id info.addrs (remove_addrs (addrs_of older) b.peer_addrs);
        },
        older,
      )

  -- `remove`.
  unfoldable pub remove : Book N → PeerId → Book N × Option (PeerInfo N)
  unfolding remove_addrs
  remove b p =
      let older = Map.get peer_discrete p b.peer_infos in
      (
        record {
          peer_infos = Map.remove peer_discrete p b.peer_infos;
          peer_addrs = remove_addrs (addrs_of older) b.peer_addrs;
        },
        older,
      )

  -- A write through `get_mut`, if the peer is known.
  abbrev pub write : Book N → PeerId → Option (PeerInfo N) → Book N
  write b p none = b
  write b p (some info) = record b { peer_infos = Map.insert peer_discrete p info b.peer_infos }

  unfoldable pub appear : Book N → PeerId → Time → Book N
  appear b p time = write b p (
      Option.map (λ (info : PeerInfo N). record info { appear = some time })
        (Map.get peer_discrete p b.peer_infos))

  unfoldable pub disappear : Book N → PeerId → Time → Book N
  disappear b p time = write b p (
      Option.map (λ (info : PeerInfo N). record info { disappear = some time })
        (Map.get peer_discrete p b.peer_infos))

  abbrev pub get : Book N → PeerId → Option (PeerInfo N)
  get b p = Map.get peer_discrete p b.peer_infos

  abbrev pub listen_on : Book N → Addr → Option PeerId
  listen_on b a = Map.get addr_discrete a b.peer_addrs

  -- The filter of `choose_peers`, before the random choice among the peers that it leaves.
  unfoldable pub speaking : Protocol → Map PeerId (PeerInfo N) → List PeerId
  speaking protocol [] = []
  speaking protocol ((p, info) ∷ infos) =
      let rest = speaking protocol infos in
      if contains protocol_discrete info.protos protocol then info.id ∷ rest else rest

  module _ (sample : List PeerId → ℕ → List PeerId) where
    abbrev pub choose_peers : Book N → Protocol → ℕ → List PeerId
    choose_peers b protocol maximum = sample (speaking protocol b.peer_infos) maximum

  -- `ends_with` on the suffix of a relayed address, and `with_p2p`, which can fail.
  module _ (is_circuit : Addr → Bool) (with_p2p : Addr → PeerId → Option Addr) where
    unfoldable pub nat_peers_loop : ℕ → Map Addr PeerId → List Addr → List Addr
    nat_peers_loop limits [] raddrs = raddrs
    nat_peers_loop limits ((a, p) ∷ m) raddrs = elim (if is_circuit a then with_p2p a p else none) [
      | none ↦ nat_peers_loop limits m raddrs
      | some addr ↦ elim (length (raddrs ++ addr ∷ []) == limits) [
        | true ↦ raddrs ++ addr ∷ []
        | false ↦ nat_peers_loop limits m (raddrs ++ addr ∷ [])
      ]
    ]

    unfoldable pub choose_nat_peers : Book N → ℕ → List Addr
    unfolding nat_peers_loop
    choose_nat_peers b limits = nat_peers_loop limits b.peer_addrs []
