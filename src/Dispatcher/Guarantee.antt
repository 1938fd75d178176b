-- ===== src/Dispatcher/Guarantee.antt =====
-- The guarantee that the `expect` of `dispatch` names: a protocol is bound to a listener with a queue.
use xstack.Base.{arith, ◌≡◌, refl, List, [], ◌∷◌, ◌++◌, Option, none, some}
use xstack.Base.Map
use xstack.Base.Map.{Map, get-insert, get-remove}
use xstack.Base.Outcome.{Outcome, done}
use xstack.Dispatcher.{
  Names, Inbound, Dispatcher, dispatch, dispatch_all, enqueue, to_listener, route,
}

module _ (N : Names) where
  open N use {
    Stream, Protocol, ConnId, ListenerId, protocol_discrete, conn_discrete, listener_discrete,
    conn_id,
  }

  abbrev pub queue : Dispatcher N → ListenerId → Option (List (Inbound N))
  queue s i = Map.get listener_discrete i s.inbound_streams

  abbrev pub listener : Dispatcher N → Protocol → Option ListenerId
  listener s p = Map.get protocol_discrete p s.protos

  -- A listener with its queue.
  abbrev pub Listens : Dispatcher N → ListenerId → Type 0
  Listens s i = (q : List (Inbound N)) × (queue s i ≡ some q)

  abbrev pub IsGuaranteed : Dispatcher N → Type 0
  IsGuaranteed s = (p : Protocol) (i : ListenerId) → listener s p ≡ some i → Listens s i

  pub Listens-insert :
      (s t : Dispatcher N) (i j : ListenerId) (q : List (Inbound N))
      → t.inbound_streams ≡ Map.insert listener_discrete i q s.inbound_streams
      → Listens s j
      → Listens t j
  Listens-insert s t i j q e (r, f) = elim (listener_discrete i j) [
    | yes same ↦
        (q, rw e (ground (arith, same, get-insert listener_discrete i j q s.inbound_streams)))
    | no other ↦
        (r, rw e (ground (arith, f, other, get-insert listener_discrete i j q s.inbound_streams)))
  ]

  -- The dispatcher that a step makes without a panic.
  pub record Kept (o : Outcome (Dispatcher N)) : Type 0 where
    pub state : Dispatcher N
    pub returns : o ≡ done state
    pub guaranteed : IsGuaranteed state

  pub dispatch-Kept : (s : Dispatcher N) (x : Inbound N) → IsGuaranteed s → Kept (dispatch N s x)
  unfolding dispatch
  dispatch-Kept s x v = go (Map.get conn_discrete (conn_id x.0) s.unauth_streams)
    where
      bound_to : (o : Option ListenerId) → listener s x.1 ≡ o → Kept (to_listener N s x o)
      bound_to none e = record { state = s; returns = refl; guaranteed = v }
      bound_to (some i) e =
          let (q, f) = v x.1 i e in
          record {
            state = enqueue N s i x q;
            returns = rw f refl;
            guaranteed =
                λ p j g. Listens-insert s (enqueue N s i x q) i j (q ++ x ∷ []) refl (v p j g);
          }

      go : (o : Option (List (Inbound N))) → Kept (route N s x o)
      go (some waiting) = record { state = _; returns = refl; guaranteed = v }
      go none = bound_to (listener s x.1) refl

  pub dispatch_all-Kept :
      (s : Dispatcher N) (xs : List (Inbound N)) → IsGuaranteed s → Kept (dispatch_all N s xs)
  unfolding dispatch_all
  dispatch_all-Kept s [] v = record { state = s; returns = refl; guaranteed = v }
  dispatch_all-Kept s (x ∷ xs) v =
      let t = dispatch-Kept s x v in rw t.returns (dispatch_all-Kept t.state xs t.guaranteed)
