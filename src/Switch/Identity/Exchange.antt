-- ===== src/Switch/Identity/Exchange.antt =====
-- The identity that one switch sends and another receives.
use xstack.Base.{
  ℕ, ◌≡◌, refl, ap, ◌∙◌, List, [], ◌∷◌, ◌++◌, map, none, some, Bool, true, false, if_pos,
  if◌then◌else◌, length, ◌≤◌, le→ltb, All,
}
use xstack.Base.Outcome.{done}
use xstack.Base.Result.{ok, collect}
use xstack.Rpc.{Io, xstack_recv_identity, xstack_send}
use xstack.Rpc.Framing.{frame, receive-frame, xstack_send_lem}
use xstack.PeerBook as PeerBooks
use xstack.PeerBook.Listening.{insert_lem}
use xstack.Switch.Addresses
use xstack.Switch.State.{Identity, Net, Addr, Switch, library, identity_message, book_names}
use xstack.Switch.Identity.{
  addresses, direct, Learned, authenticate, learn, identity_push, keys, merge_protos,
  set_observed_addrs, insert_peer_info, own_identity, identity_response,
}

module _ (N : Net) where
  open N use {PeerId, PublicKey, Time, peer_discrete, to_peer_id, to_vec}

  -- An address that is read back from its bytes.
  abbrev pub IsRead : Addr N → Type 0
  IsRead a = N.try_from (to_vec a) ≡ ok a

  addresses-map :
      (addrs : List (Addr N)) → All IsRead addrs → addresses N (map to_vec addrs) ≡ ok addrs
  unfolding collect
  addresses-map [] h = refl
  addresses-map (a ∷ addrs) h = rw (h.0, addresses-map addrs h.1) refl

  authenticate_self : (p : PeerId) → authenticate N p p ≡ ok tt
  authenticate_self p = rw (if_pos (peer_discrete p p) refl) refl

  -- The address at which a switch sees the peer of a stream, unless the connection is relayed.
  abbrev pub seen : Bool → Addr N → List (Addr N)
  seen is_relay peer_addr = if is_relay then [] else peer_addr ∷ []

  -- What a switch tells of itself.
  abbrev pub own_info : Switch N → Time → PeerBooks.PeerInfo (book_names N)
  own_info a now = record {
    id = to_peer_id a.public_key;
    addrs = Addresses.listen_addrs N.addr_discrete a.mutable_switch;
    protos = merge_protos (keys a.stream_dispatcher.protos);
    appear = some now;
    disappear = none;
  }

  learn-own_identity :
      (a : Switch N) (is_relay : Bool) (peer_addr : Addr N) (now : Time)
      → All IsRead (Addresses.listen_addrs N.addr_discrete a.mutable_switch)
      → IsRead peer_addr
      → learn N (to_peer_id a.public_key) now (own_identity N a is_relay peer_addr)
        ≡ ok (own_info a now, direct N (seen is_relay peer_addr))
  unfolding learn own_identity
  learn-own_identity a true peer_addr now listens sees =
      rw
        (
          N.decode-encode_protobuf a.public_key,
          authenticate_self (to_peer_id a.public_key),
          addresses-map (Addresses.listen_addrs N.addr_discrete a.mutable_switch) listens,
        )
        refl
  learn-own_identity a false peer_addr now listens sees =
      rw
        (
          N.decode-encode_protobuf a.public_key,
          authenticate_self (to_peer_id a.public_key),
          addresses-map (Addresses.listen_addrs N.addr_discrete a.mutable_switch) listens,
          addresses-map (peer_addr ∷ []) (sees, tt),
        )
        refl

  identity_response-xstack_send :
      (a : Switch N) (is_relay : Bool) (peer_addr : Addr N) (io : Io)
      → identity_response N a is_relay peer_addr io
        ≡ xstack_send (library N) (identity_message N) (own_identity N a is_relay peer_addr) io
  unfolding identity_response xstack_send
  identity_response-xstack_send a is_relay peer_addr io = refl

  push-learned :
      (b : Switch N) (c : PeerId) (now : Time) (io : Io) (identity : Identity) (learned : Learned N)
      → (xstack_recv_identity (library N) (identity_message N) b.max_packet_size io).0 ≡ ok identity
      → learn N c now identity ≡ ok learned
      → identity_push N c now io b
        ≡ done (ok tt, insert_peer_info N learned.0 (set_observed_addrs N learned.1 b))
  unfolding identity_push
  push-learned b c now io identity learned received e = rw (received, e) refl

  -- A switch that answers the request for its identity, and a switch that reads this answer on a
  -- connection with it: both succeed. The second then knows the first under its identifier, with its
  -- listening addresses and its protocols, the three of every switch included, and has observed the
  -- address at which the first sees it, unless that is relayed. The message fits the limit of the
  -- second, and it and the addresses in it are what their bytes are parsed to; nothing else was written
  -- on the stream.
  pub identity_response-identity_push :
      (a b : Switch N) (is_relay : Bool) (peer_addr : Addr N) (now : Time) (bytes rest : List ℕ)
      (out inp : Io)
      → N.write_to_bytes (own_identity N a is_relay peer_addr) ≡ ok bytes
      → N.parse_from_bytes bytes ≡ ok (own_identity N a is_relay peer_addr)
      → length bytes ≤ b.max_packet_size
      → All IsRead (Addresses.listen_addrs N.addr_discrete a.mutable_switch)
      → IsRead peer_addr
      → out.is_closed ≡ false
      → out.output ≡ []
      → inp.input ≡ (identity_response N a is_relay peer_addr out).1.output ++ rest
      → ((identity_response N a is_relay peer_addr out).0 ≡ ok tt)
        × (t : Switch N) × (identity_push N (to_peer_id a.public_key) now inp b ≡ done (ok tt, t))
        × (PeerBooks.get (book_names N) t.peer_book (to_peer_id a.public_key)
            ≡ some (own_info a now))
        × (t.mutable_switch
            ≡ Addresses.set_observed_addrs N.addr_discrete b.mutable_switch
                (direct N (seen is_relay peer_addr)))
  identity_response-identity_push a b is_relay peer_addr now bytes rest out inp written parsed fits
        listens sees open_stream fresh arrived =
      let L = library N in
      let P = identity_message N in
      let me = own_identity N a is_relay peer_addr in
      let sent =
        identity_response-xstack_send a is_relay peer_addr out
        ∙ xstack_send_lem L P out me bytes written open_stream in
      let arrived' : inp.input ≡ frame L bytes ++ rest =
        arrived
        ∙ ap (λ r. r.1.output ++ rest) sent
        ∙ ap (λ l. (l ++ frame L bytes) ++ rest) fresh in
      let short = le→ltb b.max_packet_size (length bytes) fits in
      let received : (xstack_recv_identity L P b.max_packet_size inp).0 ≡ ok me =
        rw ((receive-frame L P inp bytes rest b.max_packet_size arrived').1, short, parsed) refl in
      let info = own_info a now in
      let learned = learn-own_identity a is_relay peer_addr now listens sees in
      (
        ap (λ r. r.0) sent,
        insert_peer_info N info (set_observed_addrs N (direct N (seen is_relay peer_addr)) b),
        push-learned b info.id now inp me (info, direct N (seen is_relay peer_addr)) received
            learned,
        (insert_lem (book_names N) b.peer_book info info.id []).1
            ∙ if_pos (peer_discrete info.id info.id) refl (some info)
                (PeerBooks.get (book_names N) b.peer_book info.id),
        refl,
      )
