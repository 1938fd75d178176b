-- ===== src/Dispatcher/Binding.antt =====
-- What `bind` of the dispatcher does, on each of its branches.
use xstack.Base.{
  arith, ◌≡◌, ◌⊎◌, inl, inr, refl, List, [], ◌∷◌, Option, none, some, Bool, true, false,
  if◌then◌else◌, contains, Option-cases, All,
}
use xstack.Base.Map
use xstack.Base.Map.{Map, get-insert_self}
use xstack.Dispatcher.{
  Names, Dispatcher, Bound, bound, broken_pipe, in_use, bind, bind_free, find_bound,
}
use xstack.Dispatcher.Guarantee.{queue, listener}
use xstack.Dispatcher.History.{get-bind_all}

module _ (N : Names) where
  open N use {Protocol, ListenerId, protocol_discrete, listener_discrete}

  find_bound_lem :
      (protos : Map Protocol ListenerId) (protocols : List Protocol) (r : Protocol)
      → find_bound N protos protocols ≡ some r
      → (contains protocol_discrete protocols r ≡ true)
        × ((j : ListenerId) × (Map.get protocol_discrete r protos ≡ some j))
  unfolding find_bound
  find_bound_lem protos [] r e = absurd (ground arith)
  find_bound_lem protos (p ∷ protocols) r e =
      elim (Option-cases (Map.get protocol_discrete p protos)) [
        | inl free ↦
            let (c, known) = find_bound_lem protos protocols r (rw (find_bound, free) at e) in
            (ground (arith, c), known)
        | inr (j, held) ↦ (ground (arith, e, held), (j, ground (arith, e, held)))
      ]

  find_bound-none :
      (protos : Map Protocol ListenerId) (protocols : List Protocol)
      → find_bound N protos protocols ≡ none
      → All (λ r. Map.get protocol_discrete r protos ≡ none) protocols
  unfolding find_bound
  find_bound-none protos [] e = tt
  find_bound-none protos (p ∷ protocols) e =
      elim (Option-cases (Map.get protocol_discrete p protos)) [
        | inl free ↦ (free, find_bound-none protos protocols (rw (find_bound, free) at e))
        | inr (j, held) ↦ absurd (ground (arith, e, held))
      ]

  -- The branches of `bind`, for a dispatcher, a listener, protocols and a further protocol.
  abbrev pub Branches :
      Dispatcher N → ListenerId → List Protocol → Protocol → Dispatcher N × Bound Protocol → Type 0
  Branches s i protocols p (t, result) =
      ((t ≡ s) × (result ≡ broken_pipe) × (s.is_closed ≡ true))
      ⊎ ((r : Protocol) × (j : ListenerId) × (t ≡ s)
          × (result ≡ in_use r)
          × (s.is_closed ≡ false)
          × (contains protocol_discrete protocols r ≡ true)
          × (listener N s r ≡ some j))
      ⊎ ((result ≡ bound)
          × (s.is_closed ≡ false)
          × All (λ r. listener N s r ≡ none) protocols
          × (queue N t i ≡ some [])
          × (listener N t p
              ≡ (if contains protocol_discrete protocols p then some i else listener N s p)))

  -- `bind` binds all of the protocols or none: a dispatcher that drains, or one of the protocols
  -- that is bound already, which the error names, leaves it as it was. It succeeds on a dispatcher
  -- that does not drain, where none of the protocols is bound; then the listener has an empty queue,
  -- the protocols asked for lead to it, and every other one leads where it did.
  pub bind-Branches :
      (s : Dispatcher N) (i : ListenerId) (protocols : List Protocol) (p : Protocol)
      → Branches s i protocols p (bind N s i protocols)
  unfolding bind
  bind-Branches s i protocols p = go s.is_closed (find_bound N s.protos protocols) refl refl
    where
      go :
          (closed : Bool) (o : Option Protocol)
          → s.is_closed ≡ closed
          → find_bound N s.protos protocols ≡ o
          → Branches s i protocols p
              (if closed then (s, broken_pipe) else bind_free N s i protocols o)
      go true o c e = inl (refl, refl, c)
      go false (some r) c e =
          let (listed, (j, held)) = find_bound_lem s.protos protocols r e in
          inr (inl (r, j, refl, refl, c, listed, held))
      go false none c e = inr (
          inr (
            refl,
            c,
            find_bound-none s.protos protocols e,
            get-insert_self listener_discrete i [] s.inbound_streams,
            get-bind_all N i protocols s.protos p,
          ))
