-- ===== src/Tests/Pool.antt =====
-- The connection pool on connections that are numbers: a tenth of the number is the peer, half of it
-- the address.
use xstack.Base.{
  ℕ, ◌/◌, ◌+◌, ◌≡◌, inl, inr, refl, ap, List, [], ◌∷◌, none, some, true, false, ite, ltb,
  ℕ_discrete,
}
use xstack.Base.Outcome.{done}
use xstack.Pool.{Wire, Health, PoolOf, new, add, by_peer_id, by_raddr}
use xstack.Pool.Consistent.{AreClones, find}
use xstack.Pool.Limits.{Trimmed, stays, add-Trimmed}
use xstack.Pool.Lookup.{Serves, ServesAddr}
use xstack.Pool.History.{
  Event, incoming, dialed, replaced, closed, run, run-Serves, new-IsConsistent,
}
use xstack.Pool.Connect.{Dialer, connect, connect_to}
use xstack.Pool.Connect.Replied.{ConnectFits, KnownFits, Replied, connects-Replied}

abbrev numbers : Wire
numbers = record {
  Conn = ℕ;
  Addr = ℕ;
  PeerId = ℕ;
  ConnId = ℕ;
  addr_discrete = ℕ_discrete;
  peer_discrete = ℕ_discrete;
  id_discrete = ℕ_discrete;
  id = λ c. c;
  peer_of = λ c. c / 10;
  peer_addr = λ c. c / 2;
}

abbrev numbers-clones : AreClones numbers
numbers-clones = λ c d e. (ap (λ (n : ℕ). n / 10) e, ap (λ (n : ℕ). n / 2) e)

-- Connection 14 has no stream, and 26 is closed.
abbrev health : Health ℕ
health = record {
  is_closed = λ c. ite (ℕ_discrete c 26) true false;
  actives = λ c. ite (ℕ_discrete c 14) 0 1;
}

abbrev first : List ℕ → ℕ
first ids = 0

abbrev events : List (Health ℕ × Event ℕ ℕ)
events =
    (health, dialed 14)
    ∷ (health, incoming 17)
    ∷ (health, dialed 25)
    ∷ (health, replaced 18 17 true)
    ∷ (health, closed 25)
    ∷ []

run-Serves_example :
    (s : PoolOf numbers) × (run numbers (new numbers 1) events ≡ done s)
    × Serves numbers first s 1 (by_peer_id numbers first s 1)
    × ServesAddr numbers first s 7 (by_raddr numbers first s 7)
run-Serves_example = run-Serves numbers 1 events numbers-clones first 1 7

-- A pool with the limit 0 and the connection 14.
abbrev pool_of_14 :
    Trimmed numbers health
      (λ j.
        ite
          (ℕ_discrete 14 j)
          (some 14)
          (stays numbers health (ltb 0 0) (find numbers (new numbers 0) j)))
      (add numbers health (new numbers 0) 14 false)
pool_of_14 =
    add-Trimmed numbers health (new numbers 0) 14 false numbers-clones (new-IsConsistent numbers 0)

-- Address 9 refuses, after a relay was connected; the others lead to the connection with twice their
-- number.
abbrev dialer : Dialer numbers
dialer = record {
  Error = ℕ;
  dial = λ a left. ite (ℕ_discrete a 9) (inl a) (inr (a + a));
  meanwhile = λ a left. ite (ℕ_discrete a 9) ((health, dialed 25) ∷ []) [];
  shuffle = λ raddrs. raddrs;
  length-shuffle = λ raddrs. refl;
}

connects-Replied_example :
    Replied numbers dialer first health
      (ConnectFits numbers dialer first health (9 ∷ 11 ∷ []) pool_of_14.state)
      (connect numbers dialer first health pool_of_14.state (9 ∷ 11 ∷ []))
    × Replied numbers dialer first health
        (KnownFits numbers dialer first health (inr none) pool_of_14.state)
        (connect_to numbers dialer first health pool_of_14.state 1 (inr none))
connects-Replied_example =
    connects-Replied numbers dialer first health pool_of_14.state (9 ∷ 11 ∷ []) 1 (inr none)
      numbers-clones pool_of_14.consistent
