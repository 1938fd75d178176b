-- ===== src/Switch/Builder/Created.antt =====
-- `SwitchBuilder::create` as one chain of checks.
use mathlib.Core.List.{append_assoc, append-nil}
use xstack.Base.{◌≡◌, refl, sym, ap, ◌∙◌, List, [], ◌∷◌, ◌++◌}
use xstack.Base.Outcome.{done}
use xstack.Base.Result.{Result, ok, err, ◌>>=◌, collect}
use xstack.Base.Action.{proceed}
use xstack.Error.{null_transport_stack}
use xstack.Switch.State.{Net, Addr, Switch, Failure, new_switch}
use xstack.Switch.Handshake.{Transport, get_transport_by_address, bind_at, record_bound}
use xstack.Switch.Builder.{
  SwitchBuilder, SwitchBuilderInner, bind_each, create, created, with_transports, start_switch,
}

module _ (N : Net) where
  -- The address that the first transport for an address binds it to.
  abbrev pub bound_to : List (Transport N) → Addr N → Result (Addr N) (Failure N)
  bound_to transports laddr = bind_at N laddr (get_transport_by_address N transports laddr)

  abbrev pub listening : List (Addr N) → Switch N → Switch N
  listening addrs s = record s {
    mutable_switch = record (s.mutable_switch) { laddrs = s.mutable_switch.laddrs ++ addrs };
  }

  bind_each-created :
      (transports : List (Transport N)) (laddrs : List (Addr N)) (s : Switch N)
      → created N (bind_each N transports laddrs s)
        ≡ done (collect (bound_to transports) laddrs >>= λ addrs. ok (listening addrs s))
  unfolding bind_each collect
  bind_each-created transports [] s =
      ap (λ l. done (ok (record s { mutable_switch = record (s.mutable_switch) { laddrs = l } })))
        (sym (append-nil s.mutable_switch.laddrs))
  bind_each-created transports (laddr ∷ laddrs) s =
      go (bound_to transports laddr)
        (λ addr. bind_each-created transports laddrs (record_bound N addr s))
    where
      rest :
          (addr : Addr N) (r : Result (List (Addr N)) (Failure N))
          → (r >>= λ addrs. ok (listening addrs (record_bound N addr s)))
            ≡ ((r >>= λ addrs. ok (addr ∷ addrs)) >>= λ addrs. ok (listening addrs s))
      rest addr (err e) = refl
      rest addr (ok addrs) =
          ap (λ l. ok (record s { mutable_switch = record (s.mutable_switch) { laddrs = l } }))
            (append_assoc s.mutable_switch.laddrs (addr ∷ []) addrs)

      go :
          (r : Result (Addr N) (Failure N))
          → ((addr : Addr N)
              → created N (bind_each N transports laddrs (record_bound N addr s))
                ≡ done (
                    collect (bound_to transports) laddrs >>= λ addrs.
                    ok (listening addrs (record_bound N addr s))))
          → created N (
              proceed
                (proceed (done (r, s)) λ addr t. done (ok tt, record_bound N addr t))
                λ _. bind_each N transports laddrs)
            ≡ done (
                (r >>= λ addr. collect (bound_to transports) laddrs >>= λ addrs. ok (addr ∷ addrs))
                >>= λ addrs. ok (listening addrs s))
      go (err e) ih = refl
      go (ok addr) ih = ih addr ∙ ap done (rest addr (collect (bound_to transports) laddrs))

  -- The switch that a configuration asks for, or the first error: no transport, no key, an address
  -- that no transport takes or that its transport cannot bind.
  abbrev pub has_transports : List (Transport N) → Result (Unit {0}) (Failure N)
  has_transports [] = err null_transport_stack
  has_transports (first ∷ others) = ok tt

  abbrev pub expected : SwitchBuilderInner N → Result (Switch N) (Failure N)
  expected cfg = has_transports cfg.immutable.transports >>= λ _.
      cfg.immutable.public_key >>= λ key.
      collect (bound_to cfg.immutable.transports) cfg.laddrs >>= λ addrs. ok (
        listening addrs (
          new_switch N key cfg.immutable.agent_version cfg.immutable.max_packet_size
            cfg.immutable.max_observed_addrs_len 20))

  pub create_lem : (builder : SwitchBuilder N) → create N builder ≡ done (builder >>= expected)
  unfolding create
  create_lem (err e) = refl
  create_lem (ok cfg) = transports cfg.immutable.transports cfg.immutable.public_key
    where
      key_of :
          (key : Result N.PublicKey (Failure N))
          → start_switch N cfg key
            ≡ done (
                key >>= λ k. collect (bound_to cfg.immutable.transports) cfg.laddrs >>= λ addrs.
                ok (
                  listening addrs (
                    new_switch N k cfg.immutable.agent_version cfg.immutable.max_packet_size
                      cfg.immutable.max_observed_addrs_len 20)))
      key_of (err e) = refl
      key_of (ok k) = bind_each-created cfg.immutable.transports cfg.laddrs _

      transports :
          (ts : List (Transport N)) (key : Result N.PublicKey (Failure N))
          → with_transports N cfg ts
            ≡ done (
                has_transports ts >>= λ _. cfg.immutable.public_key >>= λ k.
                collect (bound_to cfg.immutable.transports) cfg.laddrs >>= λ addrs. ok (
                  listening addrs (
                    new_switch N k cfg.immutable.agent_version cfg.immutable.max_packet_size
                      cfg.immutable.max_observed_addrs_len 20)))
      transports [] key = refl
      transports (first ∷ others) key = key_of cfg.immutable.public_key
