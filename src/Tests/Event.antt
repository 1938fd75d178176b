-- ===== src/Tests/Event.antt =====
-- The event mediator with peers that are numbers.
use xstack.Base.{ℕ, ◌≡◌, refl, List, [], ◌∷◌, Option, some, ite, ℕ_discrete}
use xstack.Base.Map
use xstack.Base.Outcome.{done}
use xstack.Event.{
  network_kind, success_kind, network, handshake_success, Sent, accepted, disconnected, Argument,
}
use xstack.Event.Mediator.{start, bind_with, poll_next, close, prune, send_all}
use xstack.Event.History.{Happening, bound, raised, pruned, closed, run, step, run-poll_next}
use xstack.AutoNat.{public}

-- The channel of source 1 is gone.
abbrev answers : ℕ → Sent
answers i = ite (ℕ_discrete i 1) disconnected accepted

abbrev history : List (Happening ℕ)
history =
    bound network_kind
    ∷ bound network_kind
    ∷ bound success_kind
    ∷ raised answers (network public)
    ∷ raised answers (handshake_success "c" 4)
    ∷ pruned "/xstack/network" (1 ∷ [])
    ∷ closed 2
    ∷ []

kind_of_0 : Map.get ℕ_discrete 0 (run start history).sources ≡ some network_kind
unfolding run step bind_with Map.get Map.insert ℕ_discrete close prune send_all
kind_of_0 = refl

run-poll_next_example :
    (a : Option (Argument ℕ network_kind)) × ((poll_next (run start history) 0 network_kind).1
      ≡ done a)
run-poll_next_example = run-poll_next history 0 network_kind kind_of_0
