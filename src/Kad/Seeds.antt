-- ===== src/Kad/Seeds.antt =====
-- `KademliaOptions::with_seeds` of crates/kad/src/router.rs. The order in which the source goes through
-- its map of the seeds is that of their first peers here. The routing table is left out, but for the panic
-- at the local peer; the keys of peers, hashes, are a parameter.
pub mod Groups
pub mod Known
use Prim.Native.String.{String}
use xstack.Base.{ℕ, Bool, true, false, if◌then◌else◌, List, [], ◌∷◌, ◌++◌, Option, none, some}
use xstack.Base.Map
use xstack.Base.Map.{Map}
use xstack.Base.Outcome.{Outcome, done, panic, ◌>>=◌}
use xstack.Base.Result.{Result, ok, err}
use xstack.Kad.Key
use xstack.Multiaddr.{Protocol, p2p, pop}
use xstack.PeerBook as PeerBooks
use xstack.Switch.State.{Net, Addr, book_names}
use xstack.Switch.Identity.{keys}
use xstack.Kad.Messages.{Error, other, without_p2p, Codec, PeerInfo}
use xstack.Kad.Find.{Book}

module _ (N : Net) where
  open N use {PeerId, peer_discrete}

  abbrev pub peer_in : Option (Protocol N.Ip PeerId N.Other) → Option PeerId
  peer_in (some (p2p id)) = some id
  peer_in _ = none

  -- The peer that an address ends with.
  unfoldable pub last_peer : Addr N → Option PeerId
  unfolding pop
  last_peer raddr = peer_in (pop raddr).0

  -- The addresses of a peer, with one more.
  abbrev pub pushed : Option (List (Addr N)) → Addr N → List (Addr N)
  pushed none raddr = raddr ∷ []
  pushed (some addrs) raddr = addrs ++ raddr ∷ []

  abbrev pub push : Map PeerId (List (Addr N)) → PeerId → Addr N → Map PeerId (List (Addr N))
  push m id raddr = Map.insert peer_discrete id (pushed (Map.get peer_discrete id m) raddr) m

  -- The loop over the seeds, each of which is an address or a text on why it is none.
  unfoldable pub group :
      Map PeerId (List (Addr N))
      → List (Result (Addr N) String)
      → Result (Map PeerId (List (Addr N))) (Error N)
  unfolding last_peer Map.get Map.insert
  group m [] = ok m
  group m (err e ∷ seeds) = err (other e)
  group m (ok raddr ∷ seeds) = elim (last_peer raddr) [
    | none ↦ err (without_p2p raddr)
    | some id ↦ group (push m id raddr) seeds
  ]

  abbrev pub seed_info : PeerId → List (Addr N) → PeerInfo N
  seed_info id addrs = record {
    id = id;
    addrs = addrs;
    protos = [];
    appear = none;
    disappear = none;
  }

  module _ (key_of : PeerId → ℕ) (local_key : ℕ) where
    -- A peer at no distance from the local one, for which `KBucketTable::insert` panics.
    abbrev pub no_index : Option ℕ → Bool
    no_index none = true
    no_index (some i) = false

    abbrev pub is_local : PeerId → Bool
    is_local id = no_index (Key.k_index (Key.distance (key_of id) local_key))

    unfoldable pub insert_all : Book N → Map PeerId (List (Addr N)) → Outcome (Book N)
    insert_all book [] = done book
    insert_all book ((id, addrs) ∷ m) =
        let rest = insert_all (PeerBooks.insert (book_names N) book (seed_info id addrs)).0 m in
        if is_local id then panic else rest

    abbrev pub on_grouped :
        Book N
        → Result (Map PeerId (List (Addr N))) (Error N)
        → Outcome (Result (List PeerId) (Error N) × Book N)
    on_grouped book (err e) = done (err e, book)
    on_grouped book (ok m) = insert_all book m >>= λ book'. done (ok (keys m), book')

    -- `with_seeds`: the peers that the routing table is given, and the book.
    unfoldable pub with_seeds :
        List (Result (Addr N) String) → Book N → Outcome (Result (List PeerId) (Error N) × Book N)
    unfolding group insert_all keys
    with_seeds seeds book = on_grouped book (group [] seeds)
