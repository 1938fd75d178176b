-- ===== src/Switch/Handshake/History.antt =====
-- Any history of the switch: connections that begin and end their handshakes, streams that come and
-- are taken, listeners that come and go, and connections that are closed.
use Prim.Native.String.{String}
use xstack.Base.{
  ℕ, ◌≡◌, refl, sym, ◌∙◌, arith, List, [], ◌∷◌, Option, none, some, Bool, true, false, ite, subst,
  Bool-cases, inl, inr,
}
use xstack.Base.Map
use xstack.Base.Text.{text_discrete}
use xstack.Base.Outcome.{Outcome, done, panic, out_of_fuel}
use xstack.Base.Outcome as Outcomes
use xstack.Base.Result.{Result, ok, err}
use xstack.Base.Action.{proceed}
use xstack.Dispatcher as Dispatchers
use xstack.Dispatcher.{dispatch_all, release, cached}
use xstack.Dispatcher.History as Streams
use xstack.Event.{Sent}
use xstack.Pool as Pools
use xstack.Pool.Consistent.{AreClones, find, remove-Removed}
use xstack.Pool.History.{new-IsConsistent}
use xstack.Pool.Limits.{stays, add-Trimmed}
use xstack.Switch.State.{Net, Switch, new_switch, Failure, stream_names, wire}
use xstack.Switch.Identity.{dispatching}
use xstack.Switch.Handshake.Settled.{IsKnown, peer_of, IsSound, Settled, request-Settled}
use xstack.Switch.Handshake.{Attempt, begin, request, or_close, host, with_pool}

stays-some :
    (W : Pools.Wire) (h : Pools.Health W.Conn) (over : Bool) (o : Option W.Conn) (c : W.Conn)
    → stays W h over o ≡ some c
    → o ≡ some c
stays-some W h false o c e = e
stays-some W h true none c e = e
stays-some W h true (some d) c e = elim (Bool-cases (Pools.is_idle W h d)) [
  | inl idle ↦ absurd (ground (arith, e, idle))
  | inr busy ↦ ground (arith, e, busy)
]

module _ (N : Net) where
  open N use {PeerId, Time, Conn, id, to_peer_id, public_key, peer_discrete}

  -- A step: a handshake begins; one ends, of an incoming connection or of one that was dialed; an
  -- operation of the dispatcher; and the close of a pooled connection.
  pub data Event : Type 0 where
    begun : Conn → Event
    ended : Pools.Health Conn → Conn → Bool → Time → (ℕ → Sent) → Attempt N → Event
    streams : Streams.Event (stream_names N) → Event
    closed : Pools.Health Conn → String → Event

  -- The end of the tasks of `handle_incoming` and of `transport_connect`, with what the pool does.
  abbrev pub conclude :
      Pools.Health Conn
      → Conn
      → Bool
      → Outcome (Result (Unit {0}) (Failure N) × Switch N)
      → Outcome (Result (Unit {0}) (Failure N) × Switch N)
  conclude h conn inbound o = proceed (or_close N conn o) λ _. host N h conn inbound

  -- The state after a task, whether it fails or not.
  abbrev pub after : Outcome (Result (Unit {0}) (Failure N) × Switch N) → Outcome (Switch N)
  after (done (r, s)) = done s
  after panic = panic
  after out_of_fuel = out_of_fuel

  unfoldable pub step : Switch N → Event → Outcome (Switch N)
  step s (begun conn) = after (begin N conn s)
  step s (ended h conn inbound now answer attempt) =
      after (conclude h conn inbound (request N conn now answer attempt s))
  step s (streams e) = after (dispatching N (λ d. Streams.step (stream_names N) d e) s)
  step s (closed h i) = after (with_pool N s (Pools.remove (wire N) h s.connector i))

  unfoldable pub run : Switch N → List Event → Outcome (Switch N)
  unfolding step
  run s [] = done s
  run s (e ∷ es) = Outcomes.◌>>=◌ (step s e) λ t. run t es

  record Sound (o : Outcome (Switch N)) : Type 0 where
    state : Switch N
    returns : o ≡ done state
    sound : IsSound N state

  -- What is found in the pool after an `add` is the connection that is added, or was found before.
  found-IsKnown :
      (s : Switch N) (h : Pools.Health Conn) (over : Bool) (conn c : Conn) (i : String)
      → IsKnown N s (peer_of N conn)
      → ((c' : Conn) → find (wire N) s.connector i ≡ some c' → IsKnown N s (peer_of N c'))
      → ite
          (text_discrete (id conn) i)
          (some conn)
          (stays (wire N) h over (find (wire N) s.connector i))
        ≡ some c
      → IsKnown N s (peer_of N c)
  found-IsKnown s h over conn c i here before e = elim (text_discrete (id conn) i) [
    | yes same ↦ subst (λ c'. IsKnown N s (peer_of N c')) (ground (arith, e, same)) here
    | no other ↦
        before c
          (stays-some (wire N) h over (find (wire N) s.connector i) c (ground (arith, e, other)))
  ]

  conclude-Sound :
      (h : Pools.Health Conn) (conn : Conn) (inbound : Bool)
      (o : Outcome (Result (Unit {0}) (Failure N) × Switch N))
      → AreClones (wire N)
      → Settled N conn o
      → Sound (after (conclude h conn inbound o))
  conclude-Sound h conn inbound o clones x = rw x.returns (go x.result x.passed)
    where
      go :
          (r : Result (Unit {0}) (Failure N))
          → (r ≡ ok tt → IsKnown N x.state (peer_of N conn))
          → Sound (after (conclude h conn inbound (done (r, x.state))))
      go (err e) passed = record {
        state = _;
        returns = refl;
        sound = record {
          consistent = x.sound.consistent;
          guaranteed = x.sound.guaranteed;
          known = x.sound.known;
        };
      }
      go (ok u) passed =
          let t = add-Trimmed (wire N) h x.state.connector conn inbound clones x.sound.consistent in
          record {
            state = record (x.state) { connector = t.state };
            returns = rw t.returns refl;
            sound = record {
              consistent = t.consistent;
              guaranteed = x.sound.guaranteed;
              known = λ i c e.
                  found-IsKnown x.state h _ conn c i (passed refl) (x.sound.known i)
                    (sym (t.left i) ∙ e);
            };
          }

  step-Sound : (s : Switch N) (e : Event) → AreClones (wire N) → IsSound N s → Sound (step s e)
  unfolding step Dispatchers.handshake
  step-Sound s (begun conn) clones v = record {
    state = record s {
      stream_dispatcher = Dispatchers.handshake (stream_names N) s.stream_dispatcher (id conn);
    };
    returns = refl;
    sound = record { consistent = v.consistent; guaranteed = v.guaranteed; known = v.known };
  }
  step-Sound s (ended h conn inbound now answer attempt) clones v =
      conclude-Sound h conn inbound (request N conn now answer attempt s) clones
        (request-Settled N s conn now answer attempt v)
  step-Sound s (streams e) clones v =
      let x = Streams.step-Kept (stream_names N) s.stream_dispatcher e v.guaranteed in
      record {
        state = record s { stream_dispatcher = x.state };
        returns = rw x.returns refl;
        sound = record { consistent = v.consistent; guaranteed = x.guaranteed; known = v.known };
      }
  step-Sound s (closed h i) clones v =
      let x = remove-Removed (wire N) h s.connector i v.consistent in
      record {
        state = record s { connector = x.state };
        returns = rw x.returns refl;
        sound = record {
          consistent = x.consistent;
          guaranteed = v.guaranteed;
          known = λ j c e. v.known j c (ground (arith, e, x.left j));
        };
      }

  run-Sound : (s : Switch N) (es : List Event) → AreClones (wire N) → IsSound N s → Sound (run s es)
  unfolding run
  run-Sound s [] clones v = record { state = s; returns = refl; sound = v }
  run-Sound s (e ∷ es) clones v =
      let x = step-Sound s e clones v in rw x.returns (run-Sound x.state es clones x.sound)

  fresh-IsSound :
      (key : N.PublicKey) (agent : String) (max_packet max_observed max_pool : ℕ)
      → IsSound N (new_switch N key agent max_packet max_observed max_pool)
  unfolding Map.get
  fresh-IsSound key agent max_packet max_observed max_pool = record {
    consistent = new-IsConsistent (wire N) max_pool;
    guaranteed = Streams.empty-IsGuaranteed (stream_names N);
    known = λ i c e. absurd (ground (arith, e));
  }

  -- From a new switch on, whatever handshakes begin and end, in whatever order and however the peers
  -- answer, whatever streams come and listeners come and go: nothing panics, the pool and the
  -- dispatcher keep what they promise, and the peer of each pooled connection is known to the book
  -- under its own identifier. Handles of one connection agree on its peer and its address.
  pub run-IsSound :
      (key : N.PublicKey) (agent : String) (max_packet max_observed max_pool : ℕ) (es : List Event)
      → AreClones (wire N)
      → (s : Switch N) × (run (new_switch N key agent max_packet max_observed max_pool) es ≡ done s)
        × IsSound N s
  run-IsSound key agent max_packet max_observed max_pool es clones =
      let start = new_switch N key agent max_packet max_observed max_pool in
      let x =
        run-Sound start es clones (fresh-IsSound key agent max_packet max_observed max_pool) in
      (x.state, x.returns, x.sound)
