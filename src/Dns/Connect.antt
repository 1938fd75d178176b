-- ===== src/Dns/Connect.antt =====
-- The addresses that a name is resolved to are tried in turn.
use xstack.Base.{◌≡◌, refl, List, [], ◌∷◌, none, some, arith, ℕ, ◌<◌, length, All}
use xstack.Base.Result.{Result, ok, err}
use xstack.Base.Outcome.{Outcome, done, panic, out_of_fuel}
use xstack.Multiaddr.{Multiaddr}
use xstack.Dns.{Resolver, lookup, try_each, try_resolved, connect}

module _ {Ip PeerId Other E Conn : Type 0}
    (transport_connect : Multiaddr Ip PeerId Other → Result Conn E) where
  -- What an attempt over a list of addresses ends with: the connection of one of them that opens,
  -- or an error when none does.
  abbrev pub IsAttempt : List (Multiaddr Ip PeerId Other) → Outcome (Result Conn E) → Type 0
  IsAttempt raddrs (done (ok conn)) =
      ¬ (All (λ raddr. ¬ (transport_connect raddr ≡ ok conn)) raddrs)
  IsAttempt raddrs (done (err error)) =
      All (λ raddr. (why : E) × (transport_connect raddr ≡ err why)) raddrs
  IsAttempt raddrs _ = ⊥

  later :
      (raddr : Multiaddr Ip PeerId Other) (raddrs : List (Multiaddr Ip PeerId Other)) (why : E)
      (o : Outcome (Result Conn E))
      → transport_connect raddr ≡ err why
      → IsAttempt raddrs o
      → IsAttempt (raddr ∷ raddrs) o
  later raddr raddrs why (done (ok conn)) e h = λ (none_here, none_later). h none_later
  later raddr raddrs why (done (err error)) e h = ((why, e), h)
  later raddr raddrs why panic e h = elim h [ ]
  later raddr raddrs why out_of_fuel e h = elim h [ ]

  try_each-IsAttempt :
      (error : E) (raddrs : List (Multiaddr Ip PeerId Other))
      → IsAttempt raddrs (try_each transport_connect (some error) raddrs)
  unfolding try_each
  try_each-IsAttempt error [] = tt
  try_each-IsAttempt error (raddr ∷ raddrs) =
      go (transport_connect raddr) refl (λ why. try_each-IsAttempt why raddrs)
    where
      go :
          (r : Result Conn E)
          → transport_connect raddr ≡ r
          → ((why : E) → IsAttempt raddrs (try_each transport_connect (some why) raddrs))
          → IsAttempt (raddr ∷ raddrs) (elim r [
            | ok conn ↦ done (ok conn)
            | err why ↦ try_each transport_connect (some why) raddrs
          ])
      go (ok conn) e h = λ (not_here, not_later). not_here e
      go (err why) e h =
          later raddr raddrs why (try_each transport_connect (some why) raddrs) e (h why)

  module _ (shuffle : List (Multiaddr Ip PeerId Other) → List (Multiaddr Ip PeerId Other))
      (unresolved : E) where
    -- What `connect` makes of what `lookup` returns.
    abbrev pub Ends : Result (List (Multiaddr Ip PeerId Other)) E → Outcome (Result Conn E) → Type 0
    Ends (ok []) o = o ≡ done (err unresolved)
    Ends (ok (raddr ∷ raddrs)) o = IsAttempt (shuffle (raddr ∷ raddrs)) o
    Ends (err error) o = o ≡ done (err error)

    try_shuffled :
        (raddrs : List (Multiaddr Ip PeerId Other))
        → 0 < length raddrs
        → IsAttempt raddrs (try_each transport_connect none raddrs)
    unfolding try_each
    try_shuffled [] h = absurd (omega (arith, h))
    try_shuffled (raddr ∷ raddrs) h = go (transport_connect raddr) refl
      where
        go :
            (r : Result Conn E)
            → transport_connect raddr ≡ r
            → IsAttempt (raddr ∷ raddrs) (elim r [
              | ok conn ↦ done (ok conn)
              | err why ↦ try_each transport_connect (some why) raddrs
            ])
        go (ok conn) e = λ (not_here, not_later). not_here e
        go (err why) e =
            later raddr raddrs why (try_each transport_connect (some why) raddrs) e
              (try_each-IsAttempt why raddrs)

    -- `connect` never reaches the panic of its `unwrap`: it fails when the address does not resolve,
    -- and otherwise returns the connection of one of the resolved addresses, or an error when none of
    -- them opens. `shuffle` keeps the number of the addresses.
    pub connect-Ends :
        (R : ℕ → Resolver Ip PeerId Other E) (limit : ℕ) (raddr : Multiaddr Ip PeerId Other)
        → ((xs : List (Multiaddr Ip PeerId Other)) → length (shuffle xs) ≡ length xs)
        → Ends (lookup R limit raddr) (connect R limit shuffle transport_connect unresolved raddr)
    unfolding connect try_resolved
    connect-Ends R limit raddr same = go (lookup R limit raddr)
      where
        go :
            (r : Result (List (Multiaddr Ip PeerId Other)) E)
            → Ends r (elim r [
              | ok raddrs ↦ try_resolved shuffle transport_connect unresolved raddrs
              | err error ↦ done (err error)
            ])
        go (ok []) = refl
        go (ok (a ∷ addrs)) = try_shuffled (shuffle (a ∷ addrs)) (omega (arith, same (a ∷ addrs)))
        go (err error) = refl
