-- ===== src/Switch/Handshake/Ends.antt =====
-- How a handshake of the switch ends, and what becomes of the streams that come during it.
use xstack.Base.{ℕ, ◌≡◌, refl, sym, ◌∙◌, List, [], ◌++◌, All, ◌⊎◌, inl, inr}
use xstack.Base.Map.{get-insert_self, remove-insert}
use xstack.Base.Text.{text_discrete}
use xstack.Base.Outcome.{Outcome, done, panic, out_of_fuel}
use xstack.Base.Result.{Result, ok, err}
use xstack.Error.{timeout}
use xstack.Rpc.{Io}
use xstack.Dispatcher as Dispatchers
use xstack.Dispatcher.{dispatch_all, release}
use xstack.Dispatcher.Guarantee.{IsGuaranteed, dispatch_all-Kept}
use xstack.Dispatcher.Handshake.{IsOf, holding, dispatch_all-holding}
use xstack.Event.{Sent, handshake_success, handshake_failed}
use xstack.Switch.State.{Net, Switch, Failure, stream_names}
use xstack.Switch.Identity.{identity_push, identity_request, raise, settle}
use xstack.Switch.Identity.Authenticated.{
  Pushed, LetIn, Shows, identity_push-Pushed, identity_push-Shows,
}
use xstack.Switch.Handshake.{Attempt, late, answered, request, handshake}

module _ (N : Net) where
  open N use {PeerId, Time, Conn, id, to_peer_id, public_key}

  -- The switch with the streams of a connection set aside.
  abbrev pub held : Switch N → Conn → List (Dispatchers.Inbound (stream_names N)) → Switch N
  held s conn xs = record s {
    stream_dispatcher = holding (stream_names N) s.stream_dispatcher (id conn) xs;
  }

  abbrev pub released : Switch N → Conn → Switch N
  released s conn = record s {
    stream_dispatcher = release (stream_names N) s.stream_dispatcher (id conn);
  }

  -- A handshake that ends with an error before an identity is read.
  abbrev pub Stuck :
      Switch N
      → Conn
      → List (Dispatchers.Inbound (stream_names N))
      → Failure N
      → Outcome (Result (Unit {0}) (Failure N) × Switch N)
      → Type 0
  Stuck s conn arrivals e o =
      (o ≡ done (err e, held s conn arrivals))
      × ((later : List (Dispatchers.Inbound (stream_names N)))
          → All (IsOf (stream_names N) (id conn)) later
          → dispatch_all (stream_names N) (held s conn arrivals).stream_dispatcher later
            ≡ done (held s conn (arrivals ++ later)).stream_dispatcher)

  handshake-held :
      (s : Switch N) (conn : Conn) (now : Time) (answer : ℕ → Sent)
      (arrivals : List (Dispatchers.Inbound (stream_names N))) (attempt : Attempt N)
      → All (IsOf (stream_names N) (id conn)) arrivals
      → handshake N conn now answer arrivals attempt s
        ≡ request N conn now answer attempt (held s conn arrivals)
  unfolding handshake Dispatchers.handshake
  handshake-held s conn now answer arrivals attempt all_of =
      rw (dispatch_all-holding (stream_names N) s.stream_dispatcher (id conn) [] arrivals all_of)
        refl

  -- A handshake whose request for the identity takes too long, or cannot open a stream, fails, and
  -- the streams of the connection stay set aside: neither those that came nor any that come later are
  -- ever given to a listener or dropped.
  pub handshake-Stuck :
      (s : Switch N) (conn : Conn) (now : Time) (answer : ℕ → Sent)
      (arrivals : List (Dispatchers.Inbound (stream_names N))) (e : Failure N)
      → All (IsOf (stream_names N) (id conn)) arrivals
      → Stuck s conn arrivals timeout (handshake N conn now answer arrivals late s)
        × Stuck s conn arrivals e (handshake N conn now answer arrivals (answered (err e)) s)
  unfolding identity_request
  handshake-Stuck s conn now answer arrivals e all_of =
      let later = λ (xs : List (Dispatchers.Inbound (stream_names N))).
        dispatch_all-holding (stream_names N) s.stream_dispatcher (id conn) arrivals xs in
      (
        (handshake-held s conn now answer arrivals late all_of, later),
        (handshake-held s conn now answer arrivals (answered (err e)) all_of, later),
      )

  -- What a handshake on which the peer answered comes to: it is refused exactly where what stands on
  -- the stream does not show the peer of the connection.
  pub record Refused (s : Switch N) (conn : Conn) (now : Time) (answer : ℕ → Sent) (io : Io)
      (o : Outcome (Result (Unit {0}) (Failure N) × Switch N)) : Type 0 where
    pub why : Failure N
    pub unshown : ¬ Shows N s (to_peer_id (public_key conn)) now io
    pub returns :
        o
        ≡ done (
          err why,
          raise N answer
              (handshake_failed (id conn) (to_peer_id (public_key conn)))
              (released s conn),
        )

  pub record Passed (s : Switch N) (conn : Conn) (now : Time) (answer : ℕ → Sent) (io : Io)
      (arrivals : List (Dispatchers.Inbound (stream_names N)))
      (o : Outcome (Result (Unit {0}) (Failure N) × Switch N)) : Type 0 where
    pub learned : Switch N
    pub shows : Shows N s (to_peer_id (public_key conn)) now io
    pub let_in : LetIn N (held s conn arrivals) learned (to_peer_id (public_key conn)) now io
    pub dispatcher : Dispatchers.Dispatcher (stream_names N)
    pub delivered :
        dispatch_all
          (stream_names N)
          (release (stream_names N) s.stream_dispatcher (id conn))
          arrivals
        ≡ done dispatcher
    pub returns :
        o
        ≡ done (
          ok tt,
          raise N answer
              (handshake_success (id conn) (to_peer_id (public_key conn)))
              (record learned { stream_dispatcher = dispatcher }),
        )

  released-held :
      (s : Switch N) (conn : Conn) (arrivals : List (Dispatchers.Inbound (stream_names N)))
      → release (stream_names N) (held s conn arrivals).stream_dispatcher (id conn)
        ≡ release (stream_names N) s.stream_dispatcher (id conn)
  released-held s conn arrivals =
      rw (remove-insert text_discrete (id conn) arrivals s.stream_dispatcher.unauth_streams) refl

  settle-Refused :
      (s : Switch N) (conn : Conn) (now : Time) (answer : ℕ → Sent) (io : Io)
      (arrivals : List (Dispatchers.Inbound (stream_names N))) (e : Failure N) (t : Switch N)
      → t ≡ held s conn arrivals
      → ¬ Shows N s (to_peer_id (public_key conn)) now io
      → Refused s conn now answer io (settle N conn answer (done (err e, t)))
  unfolding Dispatchers.handshake_failed
  settle-Refused s conn now answer io arrivals e t same unshown = record {
    why = e;
    unshown = unshown;
    returns = rw (same, released-held s conn arrivals) refl;
  }

  settle-Passed :
      (s : Switch N) (conn : Conn) (now : Time) (answer : ℕ → Sent) (io : Io)
      (arrivals : List (Dispatchers.Inbound (stream_names N))) (t : Switch N)
      → IsGuaranteed (stream_names N) s.stream_dispatcher
      → LetIn N (held s conn arrivals) t (to_peer_id (public_key conn)) now io
      → Passed s conn now answer io arrivals (settle N conn answer (done (ok tt, t)))
  unfolding Dispatchers.handshake_success
  settle-Passed s conn now answer io arrivals t v entered =
      let freed = release (stream_names N) s.stream_dispatcher (id conn) in
      let kept = dispatch_all-Kept (stream_names N) freed arrivals v in
      record {
        learned = t;
        shows = record {
          identity = entered.identity;
          received = entered.received;
          learned = entered.learned;
          shown = entered.shown;
        };
        let_in = entered;
        dispatcher = kept.state;
        delivered = kept.returns;
        returns =
            rw
              (
                entered.same_dispatcher,
                get-insert_self text_discrete (id conn) arrivals s.stream_dispatcher.unauth_streams,
                released-held s conn arrivals,
                kept.returns,
              )
              refl;
      }

  -- A handshake in which the peer answers the request for its identity, on a dispatcher that keeps
  -- its guarantee, does not panic. It succeeds exactly where a message within the limit stands on the
  -- stream that is an identity, with a key of the peer of the connection and with addresses that are
  -- addresses. Otherwise the handshake fails, the streams that came are dropped, the failure is
  -- announced, and all else in the switch is as it was. Where it succeeds, the book knows the peer as
  -- it has shown itself, the streams that came are dispatched in order, and the success is announced.
  pub handshake-Ends :
      (s : Switch N) (conn : Conn) (now : Time) (answer : ℕ → Sent) (io : Io)
      (arrivals : List (Dispatchers.Inbound (stream_names N)))
      → All (IsOf (stream_names N) (id conn)) arrivals
      → IsGuaranteed (stream_names N) s.stream_dispatcher
      → Refused s conn now answer io (handshake N conn now answer arrivals (answered (ok io)) s)
        ⊎ Passed s conn now answer io arrivals
            (handshake N conn now answer arrivals (answered (ok io)) s)
  unfolding identity_request
  handshake-Ends s conn now answer io arrivals all_of v =
      rw (handshake-held s conn now answer arrivals (answered (ok io)) all_of) (
        go (identity_push N (to_peer_id (public_key conn)) now io (held s conn arrivals)) refl
          (identity_push-Pushed N (held s conn arrivals) (to_peer_id (public_key conn)) now io))
    where
      shows-err :
          (t t' : Switch N) (e : Failure N)
          → ◌≡◌ {A = Outcome (Result (Unit {0}) (Failure N) × Switch N)}
              (done (ok tt, t))
              (done (err e, t'))
          → ⊥
      shows-err t t' e same = cc

      go :
          (o : Outcome (Result (Unit {0}) (Failure N) × Switch N))
          → identity_push N (to_peer_id (public_key conn)) now io (held s conn arrivals) ≡ o
          → Pushed N (held s conn arrivals) (to_peer_id (public_key conn)) now io o
          → Refused s conn now answer io (settle N conn answer o)
            ⊎ Passed s conn now answer io arrivals (settle N conn answer o)
      go (done (ok u, t)) gives entered =
          inr (settle-Passed s conn now answer io arrivals t v entered)
      go (done (err e, t)) gives same = inl (
          settle-Refused s conn now answer io arrivals e t same λ shows.
            let (t', e') =
              identity_push-Shows N (held s conn arrivals) (to_peer_id (public_key conn)) now io
                (record {
                  identity = shows.identity;
                  received = shows.received;
                  learned = shows.learned;
                  shown = shows.shown;
                }) in
            shows-err t' t e (sym e' ∙ gives))
      go panic gives h = elim h [ ]
      go out_of_fuel gives h = elim h [ ]
