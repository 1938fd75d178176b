-- ===== src/Dispatcher/History.antt =====
-- Any history of the dispatcher: the guarantee is kept by each of its operations.
use xstack.Base.{
  arith, ◌≡◌, refl, List, [], ◌∷◌, Option, none, some, Bool, true, false, if◌then◌else◌, contains,
  Bool-cases, inl, inr, Bool,
}
use xstack.Base.Map
use xstack.Base.Map.{Map, get-insert, get-remove}
use xstack.Base.Outcome.{Outcome, done, ◌>>=◌}
use xstack.Dispatcher.Guarantee.{queue, listener, IsGuaranteed, Listens-insert, Kept, dispatch-Kept}
use xstack.Dispatcher.{
  Names, Inbound, Dispatcher, Bound, empty, handshake, dispatch, release, handshake_failed, bind,
  bind_free, bind_all, find_bound, keys_of, unbind_all, close, accept, pop,
}

module _ (N : Names) where
  open N use {
    Stream, Protocol, ConnId, ListenerId, protocol_discrete, conn_discrete, listener_discrete,
    conn_id,
  }

  pub get-bind_all :
      (i : ListenerId) (protocols : List Protocol) (protos : Map Protocol ListenerId) (p : Protocol)
      → Map.get protocol_discrete p (bind_all N i protocols protos) ≡ (
          if contains protocol_discrete protocols p
          then some i
          else Map.get protocol_discrete p protos)
  unfolding bind_all
  get-bind_all i [] protos p = refl
  get-bind_all i (r ∷ protocols) protos p = ground (
    arith,
    get-bind_all i protocols (Map.insert protocol_discrete r i protos) p,
    get-insert protocol_discrete r p i protos,
  )

  pub bind-IsGuaranteed :
      (s : Dispatcher N) (i : ListenerId) (protocols : List Protocol)
      → IsGuaranteed N s
      → IsGuaranteed N (bind N s i protocols).0
  unfolding bind
  bind-IsGuaranteed s i protocols v = go s.is_closed (find_bound N s.protos protocols)
    where
      free : IsGuaranteed N (bind_free N s i protocols none).0
      free p j e = elim (Bool-cases (contains protocol_discrete protocols p)) [
        | inl c ↦ (
          [],
          ground (
            arith,
            e,
            c,
            get-bind_all i protocols s.protos p,
            get-insert listener_discrete i j [] s.inbound_streams,
          ),
        )
        | inr c ↦
            Listens-insert N s (bind_free N s i protocols none).0 i j [] refl
              (v p j (ground (arith, e, c, get-bind_all i protocols s.protos p)))
      ]

      go :
          (closed : Bool) (o : Option Protocol)
          → IsGuaranteed N
              (if closed then (s, Bound.broken_pipe) else bind_free N s i protocols o).0
      go true o = v
      go false (some p) = v
      go false none = free

  get-unbind_all :
      (protocols : List Protocol) (protos : Map Protocol ListenerId) (p : Protocol)
      → Map.get protocol_discrete p (unbind_all N protocols protos) ≡ (
          if contains protocol_discrete protocols p
          then none
          else Map.get protocol_discrete p protos)
  unfolding unbind_all
  get-unbind_all [] protos p = refl
  get-unbind_all (r ∷ protocols) protos p = ground (
    arith,
    get-unbind_all protocols (Map.remove protocol_discrete r protos) p,
    get-remove protocol_discrete r p protos,
  )

  -- A protocol that leads to the listener is among those that `close` collects.
  contains-keys_of :
      (i : ListenerId) (protos : Map Protocol ListenerId) (p : Protocol)
      → Map.get protocol_discrete p protos ≡ some i
      → contains protocol_discrete (keys_of N i protos) p ≡ true
  unfolding keys_of Map.get
  contains-keys_of i [] p e = absurd (ground arith)
  contains-keys_of i ((r, j) ∷ protos) p e = ground (arith, e, contains-keys_of i protos p)

  close-IsGuaranteed :
      (s : Dispatcher N) (i : ListenerId) → IsGuaranteed N s → IsGuaranteed N (close N s i)
  unfolding close
  close-IsGuaranteed s i v = λ p j e.
      let keys = keys_of N i s.protos in
      let old : listener N s p ≡ some j = ground (arith, e, get-unbind_all keys s.protos p) in
      let kept : contains protocol_discrete keys p ≡ false =
        ground (arith, e, get-unbind_all keys s.protos p) in
      let apart : ¬ (i ≡ j) =
        λ same. ground (arith, kept, contains-keys_of i s.protos p (rw same old)) in
      let (q, f) = v p j old in
      (q, ground (arith, f, apart, get-remove listener_discrete i j s.inbound_streams))

  accept-IsGuaranteed :
      (s : Dispatcher N) (i : ListenerId) → IsGuaranteed N s → IsGuaranteed N (accept N s i).0
  unfolding accept
  accept-IsGuaranteed s i v = go (queue N s i)
    where
      go : (o : Option (List (Inbound N))) → IsGuaranteed N (pop N s i o).0
      go none = v
      go (some []) = v
      go (some (x ∷ q)) =
          λ p j e. Listens-insert N s (pop N s i (some (x ∷ q))).0 i j q refl (v p j e)

-- The operations; a handshake that succeeds takes the cached streams out and dispatches them one by
-- one, with other operations in between.
pub data Event (N : Names) : Type 0 where
  shaking released failed : N.ConnId → Event N
  dispatched : Inbound N → Event N
  bound : N.ListenerId → List N.Protocol → Event N
  closed accepting : N.ListenerId → Event N
  dropped : Event N

module _ (N : Names) where
  unfoldable pub step : Dispatcher N → Event N → Outcome (Dispatcher N)
  step s (shaking c) = done (handshake N s c)
  step s (released c) = done (release N s c)
  step s (failed c) = done (handshake_failed N s c)
  step s (dispatched x) = dispatch N s x
  step s (bound i protocols) = done (bind N s i protocols).0
  step s (closed i) = done (close N s i)
  step s (accepting i) = done (accept N s i).0
  step s dropped = done (record s { is_closed = true })

  unfoldable pub run : Dispatcher N → List (Event N) → Outcome (Dispatcher N)
  unfolding step
  run s [] = done s
  run s (e ∷ es) = step s e >>= λ s'. run s' es

  pub step-Kept : (s : Dispatcher N) (e : Event N) → IsGuaranteed N s → Kept N (step s e)
  unfolding step handshake handshake_failed
  step-Kept s (shaking c) v = record { state = handshake N s c; returns = refl; guaranteed = v }
  step-Kept s (released c) v = record { state = release N s c; returns = refl; guaranteed = v }
  step-Kept s (failed c) v = record {
    state = handshake_failed N s c;
    returns = refl;
    guaranteed = v;
  }
  step-Kept s (dispatched x) v = dispatch-Kept N s x v
  step-Kept s (bound i protocols) v = record {
    state = (bind N s i protocols).0;
    returns = refl;
    guaranteed = bind-IsGuaranteed N s i protocols v;
  }
  step-Kept s (closed i) v = record {
    state = close N s i;
    returns = refl;
    guaranteed = close-IsGuaranteed N s i v;
  }
  step-Kept s (accepting i) v = record {
    state = (accept N s i).0;
    returns = refl;
    guaranteed = accept-IsGuaranteed N s i v;
  }
  step-Kept s dropped v = record {
    state = record s { is_closed = true };
    returns = refl;
    guaranteed = v;
  }

  run-Kept : (s : Dispatcher N) (es : List (Event N)) → IsGuaranteed N s → Kept N (run s es)
  unfolding run
  run-Kept s [] v = record { state = s; returns = refl; guaranteed = v }
  run-Kept s (e ∷ es) v = let x = step-Kept s e v in rw x.returns (run-Kept x.state es x.guaranteed)

  pub empty-IsGuaranteed : IsGuaranteed N (empty N)
  unfolding Map.get
  empty-IsGuaranteed p i e = absurd (ground arith)

  -- Whatever happens to an empty dispatcher, in whatever order, the "Consistency Guarantee" that
  -- `dispatch` expects never fails, and afterwards a protocol that is bound has a listener with a
  -- queue.
  pub run-Listens :
      (es : List (Event N)) → (s : Dispatcher N) × (run (empty N) es ≡ done s) × IsGuaranteed N s
  run-Listens es =
      let x = run-Kept (empty N) es empty-IsGuaranteed in (x.state, x.returns, x.guaranteed)
