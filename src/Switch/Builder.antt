-- ===== src/Switch/Builder.antt =====
-- `SwitchBuilder` of crates/xstack/src/switch/builder.rs, with the default drivers of the connector,
-- the dispatcher, the events and the peer book.
pub mod Created
pub mod FirstTaker
use Prim.Native.String.{String}
use xstack.Base.{ℕ, ◌*◌, List, [], ◌∷◌, ◌++◌}
use xstack.Base.Outcome.{Outcome, done, panic, out_of_fuel}
use xstack.Base.Result.{Result, ok, err, ◌>>=◌, collect}
use xstack.Base.Action
use xstack.Error.{null_transport_stack}
use xstack.Switch.State.{Net, Addr, Switch, Failure, Task, new_switch}
use xstack.Switch.Handshake.{Transport, transport_bind}

-- A duration is a number of seconds.
pub record SwitchOptions (N : Net) : Type 0 where
  pub max_observed_addrs_len : ℕ
  pub connect_replication : ℕ
  pub timeout : ℕ
  pub agent_version : String
  pub max_packet_size : ℕ
  pub transports : List (Transport N)
  pub public_key : Result N.PublicKey (Failure N)

pub record SwitchBuilderInner (N : Net) : Type 0 where
  pub laddrs : List (Addr N)
  pub immutable : SwitchOptions N

module _ (N : Net) where
  abbrev pub SwitchBuilder : Type 0
  SwitchBuilder = Result (SwitchBuilderInner N) (Failure N)

  -- The calls on the builder. The addresses of `transport_bind` are converted, each with its result.
  pub data Setting : Type 0 where
    keystore : Result N.PublicKey (Failure N) → Setting
    timeout max_observed_addrs_len max_packet_size connect_replication : ℕ → Setting
    transport : Transport N → Setting
    transport_bind_to : List (Result (Addr N) (Failure N)) → Setting

  -- `SwitchBuilder::new`, with a random key.
  abbrev pub new : String → N.PublicKey → SwitchBuilder
  new agent_version random = ok (record {
    laddrs = [];
    immutable = record {
      max_observed_addrs_len = 5;
      connect_replication = 3;
      timeout = 20;
      agent_version = agent_version;
      max_packet_size = 1024 * 1024 * 4;
      transports = [];
      public_key = ok random;
    };
  })

  abbrev pub with_options : SwitchBuilderInner N → SwitchOptions N → SwitchBuilder
  with_options cfg options = ok (record cfg { immutable = options })

  unfoldable pub set : Setting → SwitchBuilderInner N → SwitchBuilder
  unfolding collect
  set (keystore key) cfg = with_options cfg (record (cfg.immutable) { public_key = key })
  set (timeout value) cfg = with_options cfg (record (cfg.immutable) { timeout = value })
  set (max_observed_addrs_len value) cfg =
      with_options cfg (record (cfg.immutable) { max_observed_addrs_len = value })
  set (max_packet_size value) cfg =
      with_options cfg (record (cfg.immutable) { max_packet_size = value })
  set (connect_replication value) cfg =
      with_options cfg (record (cfg.immutable) { connect_replication = value })
  set (transport value) cfg =
      with_options cfg
        (record (cfg.immutable) { transports = cfg.immutable.transports ++ value ∷ [] })
  set (transport_bind_to items) cfg =
      collect (λ item. item) items >>= λ laddrs. ok (record cfg { laddrs = laddrs })

  -- `and_then` of each call in turn.
  unfoldable pub set_all : SwitchBuilder → List Setting → SwitchBuilder
  unfolding set
  set_all builder [] = builder
  set_all builder (setting ∷ settings) = set_all (builder >>= set setting) settings

  unfoldable pub bind_each : List (Transport N) → List (Addr N) → Task N (Unit {0})
  unfolding transport_bind
  bind_each transports [] = Action.of_result (ok tt)
  bind_each transports (laddr ∷ laddrs) =
      Action.◌>>◌ (transport_bind N transports laddr) (bind_each transports laddrs)

  abbrev pub created :
      Outcome (Result (Unit {0}) (Failure N) × Switch N) → Outcome (Result (Switch N) (Failure N))
  created (done (ok u, s)) = done (ok s)
  created (done (err e, s)) = done (err e)
  created panic = panic
  created out_of_fuel = out_of_fuel

  abbrev pub start_switch :
      SwitchBuilderInner N
      → Result N.PublicKey (Failure N)
      → Outcome (Result (Switch N) (Failure N))
  start_switch cfg (err e) = done (err e)
  start_switch cfg (ok key) = created (
      bind_each cfg.immutable.transports cfg.laddrs (
        new_switch N key cfg.immutable.agent_version cfg.immutable.max_packet_size
          cfg.immutable.max_observed_addrs_len 20))

  abbrev pub with_transports :
      SwitchBuilderInner N → List (Transport N) → Outcome (Result (Switch N) (Failure N))
  with_transports cfg [] = done (err null_transport_stack)
  with_transports cfg (first ∷ others) = start_switch cfg cfg.immutable.public_key

  unfoldable pub create : SwitchBuilder → Outcome (Result (Switch N) (Failure N))
  unfolding bind_each
  create (err e) = done (err e)
  create (ok cfg) = with_transports cfg cfg.immutable.transports
