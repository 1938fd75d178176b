-- ===== src/Switch/Handshake/Settled.antt =====
-- What the request for an identity, with which a handshake ends, keeps of the switch.
use Prim.Native.String.{String}
use xstack.Base.{ℕ, ◌≡◌, refl, sym, ap, ◌∙◌, arith, some, if_pos}
use xstack.Base.Outcome.{Outcome, done, panic, out_of_fuel}
use xstack.Base.Result.{Result, ok, err}
use xstack.Rpc.{Io}
use xstack.Dispatcher as Dispatchers
use xstack.Dispatcher.{dispatch_all, release, cached}
use xstack.Dispatcher.Guarantee.{IsGuaranteed, dispatch_all-Kept}
use xstack.Event.{Sent, handshake_success, handshake_failed}
use xstack.PeerBook as PeerBooks
use xstack.Pool.Consistent.{find, IsConsistent}
use xstack.Switch.State.{Net, Switch, Failure, stream_names, book_names, wire}
use xstack.Switch.Identity.{identity_push, identity_request, raise, settle}
use xstack.Switch.Identity.Authenticated.{Pushed, LetIn, identity_push-Pushed}
use xstack.Switch.Handshake.{Attempt, late, answered, request}

module _ (N : Net) where
  open N use {PeerId, Time, Conn, id, to_peer_id, public_key, peer_discrete}

  -- The book knows the peer.
  abbrev pub IsKnown : Switch N → PeerId → Type 0
  IsKnown s p =
      (info : PeerBooks.PeerInfo (book_names N)) × (PeerBooks.get (book_names N) s.peer_book p
        ≡ some info)
      × (info.id ≡ p)

  abbrev pub peer_of : Conn → PeerId
  peer_of conn = to_peer_id (public_key conn)

  -- The pool and the dispatcher keep what they promise, and the peer of each pooled connection is in
  -- the book.
  pub record IsSound (s : Switch N) : Type 0 where
    pub consistent : IsConsistent (wire N) s.connector
    pub guaranteed : IsGuaranteed (stream_names N) s.stream_dispatcher
    pub known :
        (i : String) (c : Conn) → find (wire N) s.connector i ≡ some c → IsKnown s (peer_of c)

  -- A request for an identity that has ended.
  pub record Settled (conn : Conn) (o : Outcome (Result (Unit {0}) (Failure N) × Switch N))
      : Type 0 where
    pub result : Result (Unit {0}) (Failure N)
    pub state : Switch N
    pub returns : o ≡ done (result, state)
    pub sound : IsSound state
    pub passed : result ≡ ok tt → IsKnown state (peer_of conn)

  failed-Settled :
      (s t : Switch N) (conn : Conn) (e : Failure N) (answer : ℕ → Sent)
      → IsSound s
      → t ≡ s
      → Settled conn (settle N conn answer (done (err e, t)))
  unfolding Dispatchers.handshake_failed
  failed-Settled s t conn e answer v same = record {
    result = err e;
    state =
        raise N answer (handshake_failed (id conn) (peer_of conn))
          (record s { stream_dispatcher = release (stream_names N) s.stream_dispatcher (id conn) });
    returns = rw same refl;
    sound = record { consistent = v.consistent; guaranteed = v.guaranteed; known = v.known };
    passed = λ h. absurd (ground (arith, h));
  }

  IsKnown-LetIn :
      (s t : Switch N) (c : PeerId) (now : Time) (io : Io) (p : PeerId)
      → LetIn N s t c now io
      → IsKnown s p
      → IsKnown t p
  IsKnown-LetIn s t c now io p entered (info, at, same) = elim (peer_discrete c p) [
    | yes e ↦ (
      entered.learned.0,
      entered.known p
          ∙ if_pos (peer_discrete c p) e (some entered.learned.0)
              (PeerBooks.get (book_names N) s.peer_book p),
      ap (λ (i : PeerBooks.PeerInfo (book_names N)). i.id) entered.shown.of_peer ∙ e,
    )
    | no n ↦ (info, ground (arith, entered.known p, at, n), same)
  ]

  peer-IsKnown :
      (s t : Switch N) (c : PeerId) (now : Time) (io : Io) → LetIn N s t c now io → IsKnown t c
  peer-IsKnown s t c now io entered = (
    entered.learned.0,
    entered.known c
        ∙ if_pos (peer_discrete c c) refl (some entered.learned.0)
            (PeerBooks.get (book_names N) s.peer_book c),
    ap (λ (i : PeerBooks.PeerInfo (book_names N)). i.id) entered.shown.of_peer,
  )

  passed-Settled :
      (s t : Switch N) (conn : Conn) (now : Time) (io : Io) (answer : ℕ → Sent)
      → IsSound s
      → LetIn N s t (peer_of conn) now io
      → Settled conn (settle N conn answer (done (ok tt, t)))
  unfolding Dispatchers.handshake_success
  passed-Settled s t conn now io answer v entered =
      let D = stream_names N in
      let kept =
        dispatch_all-Kept D (release D s.stream_dispatcher (id conn))
          (cached D s.stream_dispatcher (id conn)) v.guaranteed in
      record {
        result = ok tt;
        state =
            raise N answer (handshake_success (id conn) (peer_of conn))
              (record t { stream_dispatcher = kept.state });
        returns = rw (entered.same_dispatcher, kept.returns) refl;
        sound = record {
          consistent = rw entered.same_pool v.consistent;
          guaranteed = kept.guaranteed;
          known = λ i c f.
              IsKnown-LetIn s t (peer_of conn) now io (peer_of c) entered
                (v.known i c (ap (λ pool. find (wire N) pool i) (sym entered.same_pool) ∙ f));
        };
        passed = λ h. peer-IsKnown s t (peer_of conn) now io entered;
      }

  pub request-Settled :
      (s : Switch N) (conn : Conn) (now : Time) (answer : ℕ → Sent) (attempt : Attempt N)
      → IsSound s
      → Settled conn (request N conn now answer attempt s)
  unfolding identity_request
  request-Settled s conn now answer late v = record {
    result = _;
    state = s;
    returns = refl;
    sound = v;
    passed = λ h. absurd (ground (arith, h));
  }
  request-Settled s conn now answer (answered (err e)) v = record {
    result = _;
    state = s;
    returns = refl;
    sound = v;
    passed = λ h. absurd (ground (arith, h));
  }
  request-Settled s conn now answer (answered (ok io)) v =
      go (identity_push N (peer_of conn) now io s) (identity_push-Pushed N s (peer_of conn) now io)
    where
      go :
          (o : Outcome (Result (Unit {0}) (Failure N) × Switch N))
          → Pushed N s (peer_of conn) now io o
          → Settled conn (settle N conn answer o)
      go (done (ok u, t)) entered = passed-Settled s t conn now io answer v entered
      go (done (err e, t)) same = failed-Settled s t conn e answer v same
      go panic h = elim h [ ]
      go out_of_fuel h = elim h [ ]
