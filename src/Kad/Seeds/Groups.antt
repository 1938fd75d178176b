-- ===== src/Kad/Seeds/Groups.antt =====
-- The groups of the seeds, by the peers with which they end.
use Prim.Native.String.{String}
use mathlib.Core.List.{append_assoc}
use xstack.Base.{
  ◌≡◌, refl, sym, ap, ◌∙◌, arith, List, [], ◌∷◌, ◌++◌, Option, none, some, Bool, true, false,
  if◌then◌else◌, ite, eqb,
}
use xstack.Base.Map
use xstack.Base.Map.{Map, IsMap, get-insert, insert-IsMap}
use xstack.Base.Result.{Result, ok, err}
use xstack.Switch.State.{Net, Addr}
use xstack.Kad.Messages.{Error, other, without_p2p}
use xstack.Kad.Seeds.{last_peer, pushed, push, group}

module _ (N : Net) where
  open N use {PeerId, peer_discrete}

  -- The error that the first bad seed gives: one that is no address, or that ends with no peer.
  unfoldable pub first_error : List (Result (Addr N) String) → Option (Error N)
  first_error [] = none
  first_error (err e ∷ seeds) = some (other e)
  first_error (ok raddr ∷ seeds) =
      let later = first_error seeds in
      elim (last_peer N raddr) [ none ↦ some (without_p2p raddr) | some id ↦ later ]

  abbrev pub ends_at : PeerId → Option PeerId → Bool
  ends_at p none = false
  ends_at p (some id) = eqb peer_discrete id p

  -- The seeds that end with a peer, in order.
  unfoldable pub seeds_of : List (Result (Addr N) String) → PeerId → List (Addr N)
  seeds_of [] p = []
  seeds_of (err e ∷ seeds) p = seeds_of seeds p
  seeds_of (ok raddr ∷ seeds) p =
      let later = seeds_of seeds p in if ends_at p (last_peer N raddr) then raddr ∷ later else later

  abbrev pub merged : Option (List (Addr N)) → List (Addr N) → Option (List (Addr N))
  merged o [] = o
  merged none (a ∷ addrs) = some (a ∷ addrs)
  merged (some known) (a ∷ addrs) = some (known ++ a ∷ addrs)

  merged-pushed :
      (o : Option (List (Addr N))) (a : Addr N) (addrs : List (Addr N))
      → merged (some (pushed N o a)) addrs ≡ merged o (a ∷ addrs)
  merged-pushed none a [] = refl
  merged-pushed none a (b ∷ addrs) = refl
  merged-pushed (some known) a [] = refl
  merged-pushed (some known) a (b ∷ addrs) = ap some (append_assoc known (a ∷ []) (b ∷ addrs))

  pub record Grouped (m : Map PeerId (List (Addr N))) (seeds : List (Result (Addr N) String))
      : Type 0 where
    pub groups : Map PeerId (List (Addr N))
    pub returns : group N m seeds ≡ ok groups
    pub unique : IsMap peer_discrete groups
    pub each :
        (p : PeerId)
        → Map.get peer_discrete p groups ≡ merged (Map.get peer_discrete p m) (seeds_of seeds p)

  merged-push :
      (m : Map PeerId (List (Addr N))) (id : PeerId) (raddr : Addr N) (later : List (Addr N))
      (p : PeerId)
      → merged (Map.get peer_discrete p (push N m id raddr)) later
        ≡ merged
            (Map.get peer_discrete p m)
            (if eqb peer_discrete id p then raddr ∷ later else later)
  merged-push m id raddr later p =
      rw (get-insert peer_discrete id p (pushed N (Map.get peer_discrete id m) raddr) m)
        (elim (peer_discrete id p)
          as (λ d.
            merged
              (ite d (some (pushed N (Map.get peer_discrete id m) raddr))
                (Map.get peer_discrete p m))
              later
            ≡ merged (Map.get peer_discrete p m)
                (if ite d true false then raddr ∷ later else later)) [
                  | yes same ↦
                      rw (sym same) (merged-pushed (Map.get peer_discrete id m) raddr later)
                  | no apart ↦ refl
                ])

  pub group-Grouped :
      (m : Map PeerId (List (Addr N))) (seeds : List (Result (Addr N) String))
      → IsMap peer_discrete m
      → first_error seeds ≡ none
      → Grouped m seeds
  unfolding group first_error seeds_of
  group-Grouped m [] u fine = record { groups = m; returns = refl; unique = u; each = λ p. refl }
  group-Grouped m (err e ∷ seeds) u fine = absurd (ground (arith, fine))
  group-Grouped m (ok raddr ∷ seeds) u fine =
      by_peer (last_peer N raddr) refl
        λ id. group-Grouped (push N m id raddr) seeds (insert-IsMap peer_discrete id _ m u)
    where
      by_peer :
          (o : Option PeerId)
          → last_peer N raddr ≡ o
          → ((id : PeerId) → first_error seeds ≡ none → Grouped (push N m id raddr) seeds)
          → Grouped m (ok raddr ∷ seeds)
      by_peer none e later = absurd (ground (arith, fine, e))
      by_peer (some id) e later =
          let g = later id (ground (arith, fine, e)) in
          record {
            groups = g.groups;
            returns = rw (group, e) g.returns;
            unique = g.unique;
            each = λ p. rw e (g.each p ∙ merged-push m id raddr (seeds_of seeds p) p);
          }

  pub group-first_error :
      (m : Map PeerId (List (Addr N))) (seeds : List (Result (Addr N) String)) (e : Error N)
      → first_error seeds ≡ some e
      → group N m seeds ≡ err e
  unfolding group first_error
  group-first_error m [] e bad = absurd (ground (arith, bad))
  group-first_error m (err text ∷ seeds) e bad = ap err (ground (arith, bad))
  group-first_error m (ok raddr ∷ seeds) e bad =
      by_peer (last_peer N raddr) refl λ id. group-first_error (push N m id raddr) seeds e
    where
      by_peer :
          (o : Option PeerId)
          → last_peer N raddr ≡ o
          → ((id : PeerId) → first_error seeds ≡ some e → group N (push N m id raddr) seeds ≡ err e)
          → group N m (ok raddr ∷ seeds) ≡ err e
      by_peer none e' later = rw (group, e') (ap err (ground (arith, bad, e')))
      by_peer (some id) e' later = rw (group, e') (later id (ground (arith, bad, e')))
