-- ===== src/Switch/Identity/Authenticated.antt =====
-- What `identity_push` lets into the switch.
use xstack.Base.{
  ◌≡◌, refl, sym, ap, ◌∙◌, arith, List, [], ◌∷◌, none, some, Bool, true, false, ite, All, if_pos,
  if◌then◌else◌,
}
use xstack.Base.Outcome.{Outcome, done, panic, out_of_fuel}
use xstack.Base.Result
use xstack.Base.Result.{Result, ok, err, bind-inversion, ok-injective, collect}
use xstack.Base.Action.{proceed}
use xstack.Error.{identity_decoding_error}
use xstack.Multiaddr.{any, is_p2p_circuit}
use xstack.Rpc.{Io, xstack_recv_identity}
use xstack.PeerBook as PeerBooks
use xstack.PeerBook.Listening.{insert_lem}
use xstack.Switch.Addresses
use xstack.Switch.State.{
  Identity, Net, Addr, Switch, Failure, library, identity_message, book_names,
}
use xstack.Switch.Identity.{
  to_list, bytes_of, map_err, addresses, direct, Learned, authenticate, with_key, with_raddrs, tell,
  learn, identity_push, set_observed_addrs, insert_peer_info,
}

map_err-ok :
    {A E F : Type 0} (wrap : E → F) (r : Result A E) (a : A) → map_err wrap r ≡ ok a → r ≡ ok a
map_err-ok wrap (ok b) a e = ap ok (ok-injective e)
map_err-ok wrap (err x) a e = absurd (ground (arith, e))

module _ (N : Net) where
  open N use {PeerId, PublicKey, Time, peer_discrete, to_peer_id}

  abbrev pub IsDirect : Addr N → Type 0
  IsDirect a = any is_p2p_circuit a ≡ false

  direct-IsDirect : (addrs : List (Addr N)) → All IsDirect (direct N addrs)
  unfolding direct
  direct-IsDirect [] = tt
  direct-IsDirect (a ∷ addrs) = go (any is_p2p_circuit a) refl (direct-IsDirect addrs)
    where
      go :
          (b : Bool)
          → any is_p2p_circuit a ≡ b
          → All IsDirect (direct N addrs)
          → All IsDirect (if b then direct N addrs else a ∷ direct N addrs)
      go true e rest = rest
      go false e rest = (e, rest)

  -- What an identity shows of the peer at the other end of a connection.
  pub record Shown (c : PeerId) (now : Time) (identity : Identity) (learned : Learned N)
      : Type 0 where
    pub key : PublicKey
    pub decoded : N.try_decode_protobuf (bytes_of identity.public_key) ≡ ok key
    pub authentic : c ≡ to_peer_id key
    pub raddrs : List (Addr N)
    pub listens : addresses N identity.listen_addrs ≡ ok raddrs
    pub of_peer : learned.0 ≡ record {
      id = c;
      addrs = raddrs;
      protos = identity.protocols;
      appear = some now;
      disappear = none;
    }
    pub observed : List (Addr N)
    pub sees : addresses N (to_list identity.observed_addr) ≡ ok observed
    pub filtered : learned.1 ≡ direct N observed

  authenticate-eq : (c p : PeerId) → authenticate N c p ≡ ok tt → c ≡ p
  authenticate-eq c p e = elim (peer_discrete c p) [
    | yes same ↦ same
    | no other ↦ absurd (ground (arith, e, other))
  ]

  learn-Shown :
      (c : PeerId) (now : Time) (identity : Identity) (learned : Learned N)
      → learn N c now identity ≡ ok learned
      → Shown c now identity learned
  unfolding learn
  learn-Shown c now identity learned e =
      let (key, decoded, e1) =
        bind-inversion
          (map_err identity_decoding_error (N.try_decode_protobuf (bytes_of identity.public_key)))
          (with_key N c now identity) learned e in
      let (u, same, e2) =
        bind-inversion (authenticate N c (to_peer_id key))
          (λ _. Result.◌>>=◌ (addresses N identity.listen_addrs) (with_raddrs N now identity key))
          learned e1 in
      let (raddrs, listens, e3) =
        bind-inversion (addresses N identity.listen_addrs) (with_raddrs N now identity key) learned
          e2 in
      let (observed, sees, e4) =
        bind-inversion (addresses N (to_list identity.observed_addr))
          (λ observed_addrs. ok (tell N now identity key raddrs observed_addrs)) learned e3 in
      let same_peer = authenticate-eq c (to_peer_id key) same in
      record {
        key = key;
        decoded =
            map_err-ok identity_decoding_error
              (N.try_decode_protobuf (bytes_of identity.public_key)) key decoded;
        authentic = same_peer;
        raddrs = raddrs;
        listens = listens;
        of_peer = rw same_peer (sym (ap (λ (l : Learned N). l.0) (ok-injective e4)));
        observed = observed;
        sees = sees;
        filtered = sym (ap (λ (l : Learned N). l.1) (ok-injective e4));
      }

  authenticate-same : (c p : PeerId) → c ≡ p → authenticate N c p ≡ ok tt
  authenticate-same c p e = rw (if_pos (peer_discrete c p) e true false) refl

  Shown-learn :
      (c : PeerId) (now : Time) (identity : Identity) (learned : Learned N)
      → Shown c now identity learned
      → (l : Learned N) × (learn N c now identity ≡ ok l)
  unfolding learn
  Shown-learn c now identity learned shown =
      let l = tell N now identity shown.key shown.raddrs shown.observed in
      (
        l,
        rw
            (
              shown.decoded,
              authenticate-same c (to_peer_id shown.key) shown.authentic,
              shown.listens,
              shown.sees,
            )
            refl,
      )

  -- A switch that has let in what the peer of a connection has shown.
  pub record LetIn (s t : Switch N) (c : PeerId) (now : Time) (io : Io) : Type 0 where
    pub identity : Identity
    pub received :
        (xstack_recv_identity (library N) (identity_message N) s.max_packet_size io).0 ≡ ok identity
    pub learned : Learned N
    pub shown : Shown c now identity learned
    pub known :
        (p : PeerId)
        → PeerBooks.get (book_names N) t.peer_book p
          ≡ ite (peer_discrete c p) (some learned.0) (PeerBooks.get (book_names N) s.peer_book p)
    pub plain : All IsDirect learned.1
    pub window :
        t.mutable_switch ≡ Addresses.set_observed_addrs N.addr_discrete s.mutable_switch learned.1
    pub same_dispatcher : t.stream_dispatcher ≡ s.stream_dispatcher
    pub same_events : t.event_mediator ≡ s.event_mediator
    pub same_pool : t.connector ≡ s.connector

  abbrev pub Pushed :
      Switch N → PeerId → Time → Io → Outcome (Result (Unit {0}) (Failure N) × Switch N) → Type 0
  Pushed s c now io (done (ok u, t)) = LetIn s t c now io
  Pushed s c now io (done (err e, t)) = t ≡ s
  Pushed s c now io panic = ⊥
  Pushed s c now io out_of_fuel = ⊥

  let_in :
      (s : Switch N) (c : PeerId) (now : Time) (io : Io) (identity : Identity)
      → (xstack_recv_identity (library N) (identity_message N) s.max_packet_size io).0 ≡ ok identity
      → (l : Result (Learned N) (Failure N)) → learn N c now identity ≡ l
      → Pushed s c now io (
          proceed (done (l, s)) λ learned.
            λ s'. done (ok tt, insert_peer_info N learned.0 (set_observed_addrs N learned.1 s')))
  let_in s c now io identity received (err e) shown = refl
  let_in s c now io identity received (ok learned) e =
      let shown = learn-Shown c now identity learned e in
      record {
        identity = identity;
        received = received;
        learned = learned;
        shown = shown;
        known = λ p.
            (insert_lem (book_names N) s.peer_book learned.0 p []).1
            ∙ ap
                (λ (info : PeerBooks.PeerInfo (book_names N)).
                  ite (peer_discrete info.id p) (some (record info { disappear = none }))
                    (PeerBooks.get (book_names N) s.peer_book p))
                shown.of_peer
            ∙ ap
                (λ (info : PeerBooks.PeerInfo (book_names N)).
                  ite (peer_discrete c p) (some info) (PeerBooks.get (book_names N) s.peer_book p))
                (sym shown.of_peer);
        plain = rw shown.filtered (direct-IsDirect shown.observed);
        window = refl;
        same_dispatcher = refl;
        same_events = refl;
        same_pool = refl;
      }

  -- What stands on the stream shows the peer at the other end.
  pub record Shows (s : Switch N) (c : PeerId) (now : Time) (io : Io) : Type 0 where
    pub identity : Identity
    pub received :
        (xstack_recv_identity (library N) (identity_message N) s.max_packet_size io).0 ≡ ok identity
    pub learned : Learned N
    pub shown : Shown c now identity learned

  pub identity_push-Shows :
      (s : Switch N) (c : PeerId) (now : Time) (io : Io)
      → Shows s c now io
      → (t : Switch N) × (identity_push N c now io s ≡ done (ok tt, t))
  unfolding identity_push
  identity_push-Shows s c now io shows =
      let (l, e) = Shown-learn c now shows.identity shows.learned shows.shown in
      (insert_peer_info N l.0 (set_observed_addrs N l.1 s), rw (shows.received, e) refl)

  -- `identity_push` does not panic. Where it fails, the switch is as it was: an identity of another
  -- peer than that of the connection, an address that is none or a message that is none changes
  -- nothing. Where it succeeds, the public key in the identity is that of the peer of the connection;
  -- the book knows this peer, with the addresses and the protocols of the identity, and every other
  -- peer as before; and none of the addresses that are added to the observed ones is relayed.
  pub identity_push-Pushed :
      (s : Switch N) (c : PeerId) (now : Time) (io : Io)
      → Pushed s c now io (identity_push N c now io s)
  unfolding identity_push
  identity_push-Pushed s c now io =
      go (xstack_recv_identity (library N) (identity_message N) s.max_packet_size io).0 refl
    where
      go :
          (r : Result Identity (Failure N))
          → (xstack_recv_identity (library N) (identity_message N) s.max_packet_size io).0 ≡ r
          → Pushed s c now io (
              proceed (done (r, s)) λ identity. λ s'.
                proceed (done (learn N c now identity, s')) λ learned. λ s''.
                  done (ok tt, insert_peer_info N learned.0 (set_observed_addrs N learned.1 s'')))
      go (err e) received = refl
      go (ok identity) received = let_in s c now io identity received (learn N c now identity) refl
