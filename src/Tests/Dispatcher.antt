-- ===== src/Tests/Dispatcher.antt =====
-- The stream dispatcher on streams that are numbers, a tenth of which is the connection.
use xstack.Base.{ℕ, ◌/◌, ◌≡◌, refl, List, [], ◌∷◌, ◌++◌, ℕ_discrete}
use xstack.Base.Outcome.{done, ◌>>=◌}
use xstack.Dispatcher.{
  Names, Dispatcher, empty, bind, dispatch, dispatch_all, handshake, handshake_success,
  handshake_failed, release, accept,
}
use xstack.Dispatcher.Guarantee.{IsGuaranteed}
use xstack.Dispatcher.History.{
  Event, shaking, dispatched, bound, released, closed, accepting, run, run-Listens,
  bind-IsGuaranteed, empty-IsGuaranteed,
}
use xstack.Dispatcher.Binding.{Branches, bind-Branches}
use xstack.Dispatcher.Handshake.{handshake_lem}
use xstack.Dispatcher.Order.{waiting_for, routed, Accepts, dispatch-accept}

abbrev names : Names
names = record {
  Stream = ℕ;
  Protocol = ℕ;
  ConnId = ℕ;
  ListenerId = ℕ;
  protocol_discrete = ℕ_discrete;
  conn_discrete = ℕ_discrete;
  listener_discrete = ℕ_discrete;
  conn_id = λ s. s / 10;
}

abbrev events : List (Event names)
events =
    bound 7 (1 ∷ 2 ∷ [])
    ∷ shaking 4
    ∷ dispatched (40, 1)
    ∷ dispatched (50, 2)
    ∷ released 4
    ∷ dispatched (40, 1)
    ∷ accepting 7
    ∷ closed 7
    ∷ dispatched (41, 1)
    ∷ []

run-Listens_example :
    (s : Dispatcher names) × (run names (empty names) events ≡ done s) × IsGuaranteed names s
run-Listens_example = run-Listens names events

-- Listener 7 for the protocols 1 and 2.
abbrev one_listener : Dispatcher names
one_listener = (bind names (empty names) 7 (1 ∷ 2 ∷ [])).0

one_listener-IsGuaranteed : IsGuaranteed names one_listener
one_listener-IsGuaranteed =
    bind-IsGuaranteed names (empty names) 7 (1 ∷ 2 ∷ []) (empty-IsGuaranteed names)

dispatch-accept_example :
    (t : Dispatcher names) × (dispatch names one_listener (40, 1) ≡ done t)
    × (waiting_for names t 7
        ≡ waiting_for names one_listener 7 ++ routed names one_listener 7 (40, 1))
    × Accepts names one_listener 7 (accept names one_listener 7)
dispatch-accept_example = dispatch-accept names one_listener (40, 1) 7 one_listener-IsGuaranteed

handshake_lem_example :
    ((dispatch_all names (handshake names one_listener 4) ((40, 1) ∷ (41, 2) ∷ []) >>= λ t.
    handshake_success names t 4)
      ≡ dispatch_all names (release names one_listener 4) ((40, 1) ∷ (41, 2) ∷ []))
    × ((dispatch_all names (handshake names one_listener 4) ((40, 1) ∷ (41, 2) ∷ []) >>= λ t.
          done (handshake_failed names t 4))
        ≡ done (release names one_listener 4))
handshake_lem_example =
    handshake_lem names one_listener 4 ((40, 1) ∷ (41, 2) ∷ []) (refl, (refl, tt))

bind-Branches_example :
    Branches names one_listener 8 (3 ∷ 2 ∷ []) 3 (bind names one_listener 8 (3 ∷ 2 ∷ []))
bind-Branches_example = bind-Branches names one_listener 8 (3 ∷ 2 ∷ []) 3
