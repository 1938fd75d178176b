-- ===== src/Tests/Search.antt =====
-- A search for a node, its messages and its seeds.
use Prim.Native.String.{String}
use xstack.Base.{ℕ, ◌≡◌, refl, arith, List, [], ◌∷◌, ◌++◌, none, some, false}
use xstack.Base.Result.{Result, ok}
use xstack.Multiaddr.{ip4, p2p}
use xstack.Rpc.{Io}
use xstack.PeerBook as PeerBooks
use xstack.Switch.State.{book_names}
use xstack.Kad.Messages.{
  KadMessage, Codec, PeerInfo, to_peer, kad_find_node, kad_get_value, kad_get_providers,
}
use xstack.Kad.Messages.Shared.{shorn, questions-to_peer}
use xstack.Kad.Find.{route}
use xstack.Kad.Find.Learned.{Routed, route-Routed}
use xstack.Kad.Seeds.{with_seeds}
use xstack.Kad.Seeds.Known.{Seeded, with_seeds-Seeded}
use xstack.Tests.Node.{Address, here, net, head_of}

-- A peer that has been seen, with a protocol.
abbrev friend : PeerInfo net
friend = record {
  id = 7;
  addrs = here ∷ [];
  protos = "/chat" ∷ [];
  appear = some 3;
  disappear = none;
}

abbrev reply : KadMessage
reply = record {
  kind = 4;
  key = 9 ∷ [];
  store_record = some (record { key = 9 ∷ []; value = 1 ∷ [] });
  closer_peers = record { id = 7 ∷ []; addrs = (1 ∷ []) ∷ []; connection = 1 } ∷ [];
  provider_peers = [];
}

abbrev codec : Codec net
codec = record {
  write = λ message. ok (message.kind ∷ []);
  parse = λ _. ok reply;
  to_bytes = λ id. id ∷ [];
  from_bytes = head_of;
}

abbrev with_input : List ℕ → Io
with_input bytes = record { input = bytes; output = []; is_closed = false }

questions-to_peer_example :
    (kad_find_node net codec (9 ∷ []) 10 (with_input (1 ∷ 5 ∷ 6 ∷ []))
      ≡ (ok (shorn net codec friend ∷ []), record (with_input (6 ∷ [])) { output = 1 ∷ 4 ∷ [] }))
    × (kad_get_value net codec (9 ∷ []) 10 (with_input (1 ∷ 5 ∷ 6 ∷ [])) ≡ (
      ok (record { closer_peers = shorn net codec friend ∷ []; value = some (1 ∷ []) }),
      record (with_input (6 ∷ [])) { output = 1 ∷ 1 ∷ [] },
    ))
    × (kad_get_providers net codec (9 ∷ []) 10 (with_input (1 ∷ 5 ∷ 6 ∷ [])) ≡ (
      ok (record { closer_peers = shorn net codec friend ∷ []; provider_peers = [] }),
      record (with_input (6 ∷ [])) { output = 1 ∷ 3 ∷ [] },
    ))
unfolding to_peer
questions-to_peer_example =
    questions-to_peer net codec (with_input (1 ∷ 5 ∷ 6 ∷ [])) (9 ∷ []) 10 reply (friend ∷ []) []
      (4 ∷ []) (1 ∷ []) (3 ∷ []) (5 ∷ []) (6 ∷ []) refl refl ((refl, (refl, tt)), tt) tt refl refl
      refl refl (omega arith) refl refl

abbrev known : PeerBooks.Book (book_names net)
known = (PeerBooks.insert (book_names net) (PeerBooks.empty (book_names net)) friend).0

-- The peer that is asked is let in first.
abbrev let_in : PeerBooks.Book (book_names net) → PeerBooks.Book (book_names net)
let_in book = (PeerBooks.insert (book_names net) book (record friend { id = 5 })).0

route-Routed_example :
    Routed net codec 2 5 10
      (some (ok (with_input (1 ∷ 5 ∷ []))))
      false
      known
      (let_in known)
      (route net codec 2 5 10 (some (ok (with_input (1 ∷ 5 ∷ [])))) false let_in known)
route-Routed_example =
    route-Routed net codec 2 5 10 (some (ok (with_input (1 ∷ 5 ∷ [])))) false let_in known

abbrev seeds : List (Result Address String)
seeds = ok (here ++ p2p 7 ∷ []) ∷ ok (ip4 8 ∷ p2p 7 ∷ []) ∷ ok (ip4 8 ∷ p2p 4 ∷ []) ∷ []

-- A hash of peers that are numbers.
abbrev key_of : ℕ → ℕ
key_of id = id

with_seeds-Seeded_example : Seeded net key_of 5 seeds known (with_seeds net key_of 5 seeds known)
with_seeds-Seeded_example = with_seeds-Seeded net key_of 5 seeds known
