-- ===== src/Switch/Addresses.antt =====
-- `MutableSwitch` of crates/xstack/src/switch/mutable.rs. The set of addresses behind a relay is a list
-- without repetition, in the order of insertion; the source relies on none.
pub mod Observed
pub mod Relayed
use xstack.Base.{
  ℕ, List, [], ◌∷◌, ◌++◌, Bool, true, false, if◌then◌else◌, ite, length, contains, ◌==◌,
}
use xstack.AutoNat.{AutoNat, public, nat, unknown}

pub record MutableSwitch (Addr : Type 0) : Type 0 where
  pub max_observed_addrs_len : ℕ
  pub laddrs : List Addr
  pub observed_addrs : List Addr
  pub nat_addrs : List Addr
  pub nat_state : AutoNat

module _ {Addr : Type 0} (addr_discrete : Discrete Addr) where
  abbrev pub new : ℕ → MutableSwitch Addr
  new max = record {
    max_observed_addrs_len = max;
    laddrs = [];
    observed_addrs = [];
    nat_addrs = [];
    nat_state = unknown;
  }

  abbrev pub transport_bind_to : MutableSwitch Addr → Addr → MutableSwitch Addr
  transport_bind_to s a = record s { laddrs = s.laddrs ++ a ∷ [] }

  abbrev pub listen_at : MutableSwitch Addr → AutoNat → List Addr
  listen_at s public = s.observed_addrs
  listen_at s nat = s.nat_addrs
  listen_at s unknown = []

  abbrev pub listen_addrs : MutableSwitch Addr → List Addr
  listen_addrs s = listen_at s s.nat_state

  abbrev pub pop_front_addr : List Addr → List Addr
  pop_front_addr [] = []
  pop_front_addr (a ∷ addrs) = addrs

  -- One round of the loop of `set_observed_addrs`, on a full queue or not.
  abbrev pub observe : List Addr → Addr → Bool → List Addr
  observe observed a full = (if full then pop_front_addr observed else observed) ++ a ∷ []

  unfoldable pub observe_all : ℕ → List Addr → List Addr → List Addr
  observe_all max observed [] = observed
  observe_all max observed (a ∷ addrs) =
      observe_all max (observe observed a (length observed == max)) addrs

  unfoldable pub set_observed_addrs : MutableSwitch Addr → List Addr → MutableSwitch Addr
  unfolding observe_all
  set_observed_addrs s addrs = record s {
    observed_addrs = observe_all s.max_observed_addrs_len s.observed_addrs addrs;
  }

  unfoldable pub extend : List Addr → List Addr → List Addr
  extend known [] = known
  extend known (a ∷ addrs) =
      extend (if contains addr_discrete known a then known else known ++ a ∷ []) addrs

  unfoldable pub delete : List Addr → Addr → List Addr
  delete [] a = []
  delete (b ∷ known) a = let rest = delete known a in ite (addr_discrete b a) rest (b ∷ rest)

  unfoldable pub delete_all : List Addr → List Addr → List Addr
  unfolding delete
  delete_all known [] = known
  delete_all known (a ∷ addrs) = delete_all (delete known a) addrs

  abbrev pub set_net_addrs : MutableSwitch Addr → List Addr → MutableSwitch Addr
  set_net_addrs s addrs = record s { nat_addrs = extend s.nat_addrs addrs }

  abbrev pub remove_net_addrs : MutableSwitch Addr → List Addr → MutableSwitch Addr
  remove_net_addrs s addrs = record s { nat_addrs = delete_all s.nat_addrs addrs }

  abbrev pub set_nat : MutableSwitch Addr → AutoNat → MutableSwitch Addr
  set_nat s n = record s { nat_state = n }
