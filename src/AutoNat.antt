-- ===== src/AutoNat.antt =====
-- The client of crates/autonat/src/client.rs: the dials that peers report, the verdict that follows
-- from them, and the state that it sets in the switch.
pub mod Verdict
pub mod Client
use xstack.Base.{ℕ, ◌+◌, List, [], ◌∷◌, Option, none, some, Bool, true, false, if◌then◌else◌, ltb}
use xstack.Base.Map
use xstack.Base.Map.{Map}

-- `AutoNAT` of crates/xstack/src/nat.rs.
pub data AutoNat : Type 0 where
  public nat unknown : AutoNat

abbrev pub same : AutoNat → AutoNat → Bool
same public public = true
same nat nat = true
same unknown unknown = true
same _ _ = false

pub record RawAutoNatClient (Addr : Type 0) : Type 0 where
  pub dial_succ : Map Addr ℕ
  pub dial_failed : ℕ

module _ {Addr : Type 0} (addr_discrete : Discrete Addr) where
  abbrev pub default : RawAutoNatClient Addr
  default = record { dial_succ = []; dial_failed = 0 }

  unfoldable pub sum : Map Addr ℕ → ℕ
  sum [] = 0
  sum ((a, counter) ∷ m) = counter + sum m

  unfoldable pub state : RawAutoNatClient Addr → AutoNat
  unfolding sum
  state c = if ltb 2 (sum c.dial_succ) then public else if ltb 2 c.dial_failed then nat else unknown

  abbrev pub next_count : Option ℕ → ℕ
  next_count (some counter) = counter + 1
  next_count none = 1

  -- `success`: the client, with the states before and after.
  unfoldable pub success : RawAutoNatClient Addr → Addr → RawAutoNatClient Addr × AutoNat × AutoNat
  unfolding state
  success c a =
      let before = state c in
      let after =
        if same before unknown
        then record c {
          dial_succ =
              Map.insert addr_discrete a (next_count (Map.get addr_discrete a c.dial_succ))
                c.dial_succ;
        }
        else c in
      (after, before, state after)

  -- `failed`.
  unfoldable pub failed : RawAutoNatClient Addr → RawAutoNatClient Addr × AutoNat × AutoNat
  unfolding state
  failed c =
      let before = state c in
      let after = if same before unknown then record c { dial_failed = c.dial_failed + 1 } else c in
      (after, before, state after)

  -- The client, and the state in the switch.
  pub record Network : Type 0 where
    pub client : RawAutoNatClient Addr
    pub network : AutoNat

  -- `bind_with` at a switch that has the default state.
  abbrev pub start : Network
  start = record { client = default; network = unknown }

  -- The end of `auto_nat_success` and `auto_nat_failed`, with `set_nat`.
  abbrev pub apply : Network → RawAutoNatClient Addr × AutoNat × AutoNat → Network
  apply s (client, before, current) = record {
    client = client;
    network = if same before current then s.network else current;
  }

  -- What a peer reports: a dial to an address that succeeded, or one that did not.
  pub data Report : Type 0 where
    ok : Addr → Report
    refused : Report

  unfoldable pub on_report : Network → Report → Network
  on_report s (ok a) = apply s (success s.client a)
  on_report s refused = apply s (failed s.client)

  unfoldable pub run : Network → List Report → Network
  unfolding on_report
  run s [] = s
  run s (r ∷ rs) = run (on_report s r) rs
