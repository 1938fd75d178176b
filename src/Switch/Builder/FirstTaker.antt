-- ===== src/Switch/Builder/FirstTaker.antt =====
-- What `SwitchBuilder::create` makes, and which transport binds an address.
use xstack.Base.{◌≡◌, ◌≢◌, ◌⊎◌, List, [], ◌∷◌, ◌++◌, All, true, false}
use xstack.Base.Result.{Result, ok, err}
use xstack.Error.{null_transport_stack, unsupported_multiaddr}
use xstack.Switch.State.{Net, Addr, Switch, Failure, new_switch}
use xstack.Switch.Handshake.{Transport}
use xstack.Switch.Builder.{SwitchBuilder}
use xstack.Switch.Builder.Created.{listening}

module _ (N : Net) where
  -- Where an address is bound: no transport takes it, or the first that takes it binds it.
  abbrev pub IsDeaf : Addr N → Transport N → Type 0
  IsDeaf laddr transport = transport.multiaddr_hint laddr ≡ false

  abbrev pub BindsTo : List (Transport N) → Addr N → Result (Addr N) (Failure N) → Type 0
  BindsTo transports laddr r =
      (All (IsDeaf laddr) transports × (r ≡ err (unsupported_multiaddr laddr)))
      ⊎ ((front : List (Transport N)) × (taker : Transport N) × (rest : List (Transport N))
          × (transports ≡ front ++ taker ∷ rest)
          × All (IsDeaf laddr) front
          × (taker.multiaddr_hint laddr ≡ true)
          × (r ≡ taker.bind laddr))

  -- Addresses that are bound one by one.
  abbrev pub AllBound : List (Transport N) → List (Addr N) → List (Addr N) → Type 0
  AllBound transports [] [] = Unit {0}
  AllBound transports (laddr ∷ laddrs) (addr ∷ addrs) =
      BindsTo transports laddr (ok addr) × AllBound transports laddrs addrs
  AllBound transports _ _ = ⊥

  -- The first address that is not bound.
  pub record Fails (transports : List (Transport N)) (laddrs : List (Addr N)) (e : Failure N)
      : Type 0 where
    pub before : List (Addr N)
    pub bound : List (Addr N)
    pub laddr : Addr N
    pub later : List (Addr N)
    pub order : laddrs ≡ before ++ laddr ∷ later
    pub all_bound : AllBound transports before bound
    pub fails : BindsTo transports laddr (err e)

  abbrev pub BoundAll :
      List (Transport N) → List (Addr N) → Result (List (Addr N)) (Failure N) → Type 0
  BoundAll transports laddrs (ok addrs) = AllBound transports laddrs addrs
  BoundAll transports laddrs (err e) = Fails transports laddrs e

  -- What `create` returns: the error of an earlier call, or what the configuration asks for.
  abbrev pub Creates : SwitchBuilder N → Result (Switch N) (Failure N) → Type 0
  Creates (err e) r = r ≡ err e
  Creates (ok cfg) r =
      ((cfg.immutable.transports ≡ []) × (r ≡ err null_transport_stack))
      ⊎ ((e : Failure N) × (cfg.immutable.transports ≢ [])
          × (cfg.immutable.public_key ≡ err e)
          × (r ≡ err e))
      ⊎ ((key : N.PublicKey) × (e : Failure N) × (cfg.immutable.transports ≢ [])
          × (cfg.immutable.public_key ≡ ok key)
          × Fails cfg.immutable.transports cfg.laddrs e
          × (r ≡ err e))
      ⊎ ((key : N.PublicKey) × (addrs : List (Addr N)) × (cfg.immutable.transports ≢ [])
          × (cfg.immutable.public_key ≡ ok key)
          × AllBound cfg.immutable.transports cfg.laddrs addrs
          × (r
              ≡ ok (
                  listening N addrs (
                    new_switch N key cfg.immutable.agent_version cfg.immutable.max_packet_size
                      cfg.immutable.max_observed_addrs_len 20))))
