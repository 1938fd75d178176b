-- ===== src/Dispatcher/Order.antt =====
-- What waits for a listener after some streams were dispatched, and what it accepts.
use mathlib.Core.List.{append-nil}
use xstack.Base.{arith, ◌≡◌, refl, sym, List, [], ◌∷◌, ◌++◌, Option, none, some, ite, ◌⊎◌, inl, inr}
use xstack.Base.Map
use xstack.Base.Map.{Map, get-insert, get-insert_self}
use xstack.Base.Outcome.{Outcome, done}
use xstack.Dispatcher.{
  Names, Inbound, Dispatcher, Accepted, accepted, waiting, no_listener, dispatch, to_listener,
  route, streams_of, accept, enqueue, pop,
}
use xstack.Dispatcher.Guarantee.{queue, listener, IsGuaranteed}

module _ (N : Names) where
  open N use {
    Stream, Protocol, ConnId, ListenerId, protocol_discrete, conn_discrete, listener_discrete,
    conn_id,
  }

  abbrev pub waiting_for : Dispatcher N → ListenerId → List (Inbound N)
  waiting_for s i = streams_of N (queue N s i)

  -- Whether a stream goes to a listener: its connection is not in a handshake, and its protocol is
  -- bound to the listener.
  abbrev pub routed_one :
      Option (List (Inbound N)) → Option ListenerId → ListenerId → Inbound N → List (Inbound N)
  routed_one (some cached) o i x = []
  routed_one none none i x = []
  routed_one none (some j) i x = ite (listener_discrete j i) (x ∷ []) []

  abbrev pub routed : Dispatcher N → ListenerId → Inbound N → List (Inbound N)
  routed s i x =
      routed_one (Map.get conn_discrete (conn_id x.0) s.unauth_streams) (listener N s x.1) i x

  -- What `accept` does: it gives the first of the streams that wait and takes it away, it finds none
  -- that waits, or it does not know the listener. Other listeners wait for what they waited for.
  abbrev pub Accepts : Dispatcher N → ListenerId → Dispatcher N × Accepted N → Type 0
  Accepts s i (t, given) =
      ((x : Inbound N) × (rest : List (Inbound N)) × (queue N s i ≡ some (x ∷ rest))
        × (given ≡ accepted x)
        × ((j : ListenerId) → queue N t j ≡ ite (listener_discrete i j) (some rest) (queue N s j)))
      ⊎ ((queue N s i ≡ some []) × (given ≡ waiting) × (t ≡ s))
      ⊎ ((queue N s i ≡ none) × (given ≡ no_listener) × (t ≡ s))

  -- A dispatcher with more streams for a listener.
  abbrev pub Delivers :
      Dispatcher N → Outcome (Dispatcher N) → ListenerId → List (Inbound N) → Type 0
  Delivers s o i xs = (t : Dispatcher N) × (o ≡ done t) × (waiting_for t i ≡ waiting_for s i ++ xs)

  to_listener-Delivers :
      (s : Dispatcher N) (x : Inbound N) (i : ListenerId) (o : Option ListenerId)
      → IsGuaranteed N s
      → listener N s x.1 ≡ o
      → Delivers s (to_listener N s x o) i (routed_one none o i x)
  to_listener-Delivers s x i none v e = (s, refl, sym (append-nil (waiting_for s i)))
  to_listener-Delivers s x i (some j) v e =
      let (q, f) = v x.1 j e in
      (
        enqueue N s j x q,
        rw f refl,
        ground (
          arith,
          f,
          get-insert listener_discrete j i (q ++ x ∷ []) s.inbound_streams,
          append-nil (waiting_for s i),
        ),
      )

  route-Delivers :
      (s : Dispatcher N) (x : Inbound N) (i : ListenerId) (o : Option (List (Inbound N)))
      → IsGuaranteed N s
      → Delivers s (route N s x o) i (routed_one o (listener N s x.1) i x)
  route-Delivers s x i none v = to_listener-Delivers s x i (listener N s x.1) v refl
  route-Delivers s x i (some held) v = (_, refl, sym (append-nil (waiting_for s i)))

  accept-Accepts : (s : Dispatcher N) (i : ListenerId) → Accepts s i (accept N s i)
  unfolding accept
  accept-Accepts s i = go (queue N s i) refl
    where
      go : (o : Option (List (Inbound N))) → queue N s i ≡ o → Accepts s i (pop N s i o)
      go none e = inr (inr (e, refl, refl))
      go (some []) e = inr (inl (e, refl, refl))
      go (some (x ∷ rest)) e =
          inl (x, rest, e, refl, λ j. get-insert listener_discrete i j rest s.inbound_streams)

  dispatch-Delivers :
      (s : Dispatcher N) (x : Inbound N) (i : ListenerId)
      → IsGuaranteed N s
      → Delivers s (dispatch N s x) i (routed s i x)
  unfolding dispatch
  dispatch-Delivers s x i v =
      route-Delivers s x i (Map.get conn_discrete (conn_id x.0) s.unauth_streams) v

  -- After `dispatch`, which does not panic, a listener waits for what it waited for and, at the end,
  -- for the stream if it goes to it. `accept` gives the first of the streams that wait for the
  -- listener, which then waits for the others, while what waits for other listeners is as before; it
  -- gives nothing only where nothing waits or where the listener is closed, which it tells apart, and
  -- then changes nothing.
  pub dispatch-accept :
      (s : Dispatcher N) (x : Inbound N) (i : ListenerId)
      → IsGuaranteed N s
      → (t : Dispatcher N) × (dispatch N s x ≡ done t)
        × (waiting_for t i ≡ waiting_for s i ++ routed s i x)
        × Accepts s i (accept N s i)
  dispatch-accept s x i v =
      let (t, e, w) = dispatch-Delivers s x i v in (t, e, w, accept-Accepts s i)
