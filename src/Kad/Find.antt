-- ===== src/Kad/Find.antt =====
-- `FindNode::route` of crates/kad/src/router.rs: one peer is asked for the peers closest to the
-- target, and the book learns of them. What the peer sends is on the stream.
pub mod Learned
use xstack.Base.{
  ℕ, List, [], ◌∷◌, map, Option, none, some, Bool, true, false, if◌then◌else◌, eqb, contains,
}
use xstack.Base.Result.{Result, ok, err}
use xstack.Rpc.{Io}
use xstack.PeerBook as PeerBooks
use xstack.Switch.State.{Net, Failure, book_names}
use xstack.Kad.Messages.{Error, xstack_error, timeout, Codec, PeerInfo, kad_find_node}

pub data Routing (N : Net) : Type 0 where
  closest : List N.PeerId → Routing N
  finished : Routing N

abbrev pub Book : Net → Type 0
Book N = PeerBooks.Book (book_names N)

module _ (N : Net) (C : Codec N) where
  -- The loop over the peers of an answer: the book, the identifiers, and the flag `finished`.
  unfoldable pub learn : N.PeerId → Book N → List (PeerInfo N) → Book N × List N.PeerId × Bool
  learn target book [] = (book, [], false)
  learn target book (info ∷ infos) =
      let (after, candidates, seen) =
        learn target (PeerBooks.insert (book_names N) book info).0 infos in
      (after, info.id ∷ candidates, if eqb N.peer_discrete info.id target then true else seen)

  abbrev pub routed : Book N × List N.PeerId × Bool → Result (Routing N) (Error N) × Book N
  routed (book, candidates, true) = (ok finished, book)
  routed (book, candidates, false) = (ok (closest candidates), book)

  abbrev pub on_closest :
      N.PeerId
      → Book N
      → Bool
      → Result (List (PeerInfo N)) (Error N) × Io
      → Result (Routing N) (Error N) × Book N
  on_closest target book true reply = (err timeout, book)
  on_closest target book false (err e, io) = (err e, book)
  on_closest target book false (ok infos, io) = routed (learn target book infos)

  -- `opened` is what the attempt to open a stream gives, if it is in time; `late` says whether the
  -- answer is not.
  abbrev pub on_stream :
      N.PeerId
      → Book N
      → ℕ
      → Option (Result Io (Failure N))
      → Bool
      → Result (Routing N) (Error N) × Book N
  on_stream target book max_packet_size none late = (err timeout, book)
  on_stream target book max_packet_size (some (err e)) late = (err (xstack_error e), book)
  on_stream target book max_packet_size (some (ok io)) late =
      on_closest target book late (kad_find_node N C (C.to_bytes target) max_packet_size io)

  -- `meanwhile` is what becomes of the book until the answer is there or the step fails: the handshake
  -- of a new connection lets the peer that is asked into the book, and other tasks change it.
  unfoldable pub route :
      N.PeerId
      → N.PeerId
      → ℕ
      → Option (Result Io (Failure N))
      → Bool
      → (Book N → Book N)
      → Book N
      → Result (Routing N) (Error N) × Book N
  unfolding learn kad_find_node
  route target peer_id max_packet_size opened late meanwhile book =
      if eqb N.peer_discrete peer_id target
      then (ok finished, book)
      else on_stream target (meanwhile book) max_packet_size opened late
