-- ===== src/Tests/PeerBook.antt =====
-- The peer book with numbers for identifiers, addresses, protocols and times.
use xstack.Base.{
  ℕ, ◌≡◌, refl, List, [], ◌∷◌, none, some, true, contains, ℕ_discrete, ite, if◌then◌else◌, ltb,
  take, ◌+◌, ◌==◌,
}
use xstack.PeerBook.{
  Names, PeerInfo, empty, insert, remove, get, listen_on, remove_addrs, insert_addrs, disappear,
  addrs_of, choose_nat_peers,
}
use xstack.Base.Map
use xstack.PeerBook.Listening.{remove-shared, insert_lem}
use xstack.PeerBook.Relays.{relayed, choose_nat_peers_lem}
use xstack.PeerBook.History.{Event, inserted, removed, disappeared, step, run, Known, run-Known}
use native.Mathlib.Omega.{arith}

abbrev names : Names
names = record {
  PeerId = ℕ;
  Addr = ℕ;
  Protocol = ℕ;
  Time = ℕ;
  peer_discrete = ℕ_discrete;
  addr_discrete = ℕ_discrete;
  protocol_discrete = ℕ_discrete;
}

abbrev info_1 : PeerInfo names
info_1 = record { id = 1; addrs = 10 ∷ 11 ∷ []; protos = []; appear = none; disappear = some 5 }

abbrev info_2 : PeerInfo names
info_2 = record { id = 2; addrs = 11 ∷ 12 ∷ []; protos = []; appear = none; disappear = none }

abbrev two_peers : List (Event names)
two_peers = inserted info_1 ∷ disappeared 1 9 ∷ inserted info_2 ∷ removed 2 ∷ []

listen_on-two_peers : listen_on names (run names (empty names) two_peers) 10 ≡ some 1
unfolding run step insert remove remove_addrs insert_addrs Map.get Map.insert Map.remove disappear
    ℕ_discrete
listen_on-two_peers = refl

run-Known_example : (k : Known names (run names (empty names) two_peers) 1 10) × (k.info.id ≡ 1)
run-Known_example = run-Known names two_peers 10 1 listen_on-two_peers

shared_11 : contains ℕ_discrete info_1.addrs 11 ≡ true
unfolding ℕ_discrete
shared_11 = refl

shared_11_too : contains ℕ_discrete info_2.addrs 11 ≡ true
unfolding ℕ_discrete
shared_11_too = refl

remove-shared_example :
    (listen_on names
        (remove names (insert names (insert names (empty names) info_1).0 info_2).0 1).0
        11
      ≡ none)
    × (get names (remove names (insert names (insert names (empty names) info_1).0 info_2).0 1).0 2
        ≡ some info_2)
remove-shared_example =
    remove-shared names (empty names) info_1 info_2 11 (λ e. absurd (omega (arith, e))) shared_11
      shared_11_too

insert_lem_example :
    ((insert names (empty names) info_1).1 ≡ get names (empty names) 1)
    × (get names (insert names (empty names) info_1).0 1
        ≡ ite
            (ℕ_discrete 1 1)
            (some (record info_1 { disappear = none }))
            (get names (empty names) 1))
    × (listen_on names (insert names (empty names) info_1).0 12 ≡ (
        if contains ℕ_discrete (10 ∷ 11 ∷ []) 12
        then some 1
        else if contains ℕ_discrete (addrs_of names (get names (empty names) 1)) 12
        then none
        else listen_on names (empty names) 12))
insert_lem_example = insert_lem names (empty names) info_1 1 12

-- Addresses below 100 are relayed ones.
choose_nat_peers_lem_example :
    choose_nat_peers names
      (λ a. ltb a 100)
      (λ a p. some (a + p))
      (insert names (empty names) info_1).0
      1
    ≡ (if 1 == 0
        then relayed names
            (λ a. ltb a 100)
            (λ a p. some (a + p))
            (insert names (empty names) info_1).0.peer_addrs
        else take 1 (
            relayed names
              (λ a. ltb a 100)
              (λ a p. some (a + p))
              (insert names (empty names) info_1).0.peer_addrs))
choose_nat_peers_lem_example =
    choose_nat_peers_lem names (λ a. ltb a 100) (λ a p. some (a + p))
      (insert names (empty names) info_1).0 1
