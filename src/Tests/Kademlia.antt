-- ===== src/Tests/Kademlia.antt =====
-- The Kademlia node on peers whose identifiers are numbers below 2^256 and their own keys.
use native.Mathlib.Omega.{arith}
use xstack.Base.{
  ℕ, suc, ◌+◌, ◌%◌, ◌^◌, ◌≤◌, ◌<◌, ◌≡◌, ◌↔◌, refl, List, [], ◌∷◌, ◌++◌, Option, none, some, true,
  false, if◌then◌else◌, ltb, length, set, take, ap, sym, ◌∙◌, subst, ◌==◌, replicate, contains, All,
  Distinct, ℕ_discrete,
}
use xstack.Base.Outcome.{Outcome, done, panic, out_of_fuel, ◌>>=◌}
use xstack.Kad.Key
use xstack.Kad.Key.Laws.{k_index-eq-some_iff}
use xstack.Kad.Key.Metric.{distance_metric}
use xstack.Kad.Bucket
use xstack.Kad.Table
use xstack.Kad.Table.{Identity, Table}
use xstack.Kad.Table.Insert.{IsTable, empty-IsTable, Inserted, try_insert-Inserted, peers_at}
use mathlib.Core.Option
use xstack.Kad.Table.View.{view}
use xstack.Kad.Closest
use xstack.Kad.Closest.Order.{visited, closest-visited}
use xstack.Kad.Refresh.{State, Event, connected, pinged, insert, on_ping, bind, run}
use xstack.Kad.Refresh.Count.{total}
use xstack.Kad.Refresh.Run.{run-IsCounted}
use xstack.Kad.Refresh.Policy.{ping_of, refresh_full}
use xstack.Kad.Routing
use xstack.Kad.Routing.{Answer, closest, failed, returned, Lookup, route, rank}
use xstack.Kad.Routing.Sorting.{nearest, IsSorted}
use xstack.Kad.Routing.Closest.{heard}
use xstack.Kad.Routing.Termination.{peers_of, enough_fuel}
use xstack.Kad.Routing.Total.{Ended, route-nearest}
use xstack.Kad.Bucket.Laws.{IsBucket, without, try_insert_cases, try_insert-IsBucket}

-- `k_distance_0` of the source's tests.
k_distance_0 :
    (Key.k_index 0 ≡ none)
    × (Key.k_index 1 ≡ some 0)
    × (Key.k_index 2 ≡ some 1)
    × (Key.k_index 3 ≡ some 1)
    × (Key.k_index 4 ≡ some 2)
    × (Key.k_index 7 ≡ some 2)
unfolding Key.k_index Key.k_index_at Key.leading_zeros
k_distance_0 = (refl, refl, refl, refl, refl, refl)

k_index-eq-some_iff_example : (Key.k_index 5 ≡ some 2) ↔ ((2 ^ 2 ≤ 5) × (5 < 2 ^ suc 2))
k_index-eq-some_iff_example = k_index-eq-some_iff 5 2 (omega arith)

abbrev key_a : ℕ
key_a = 5

abbrev key_b : ℕ
key_b = 3

abbrev key_c : ℕ
key_c = 6

distance_metric_example :
    ((Key.distance key_a key_b ≡ 0) ↔ (key_a ≡ key_b))
    × (Key.distance key_a key_b ≡ Key.distance key_b key_a)
    × (Key.distance key_a key_c ≤ Key.distance key_a key_b + Key.distance key_b key_c)
    × ((Key.distance key_a key_b ≡ Key.distance key_a key_c) ↔ (key_b ≡ key_c))
distance_metric_example = distance_metric key_a key_b key_c

abbrev three : List ℕ
three = 4 ∷ 5 ∷ 6 ∷ []

three-IsBucket : IsBucket ℕ_discrete 3 three
three-IsBucket = record { bounded = omega arith; distinct = ground arith }

try_insert_runs :
    (Bucket.try_insert ℕ_discrete 3 three 5 ≡ (4 ∷ 6 ∷ 5 ∷ [], some 5))
    × (Bucket.try_insert ℕ_discrete 3 three 7 ≡ (5 ∷ 6 ∷ [], some 4))
    × (Bucket.try_insert ℕ_discrete 4 three 7 ≡ (4 ∷ 5 ∷ 6 ∷ 7 ∷ [], none))
unfolding Bucket.try_insert ℕ_discrete
try_insert_runs = (refl, refl, refl)

try_insert_cases_example : Bucket.try_insert ℕ_discrete 3 three 7 ≡ (
    if contains ℕ_discrete three 7
    then (without ℕ_discrete 7 three ++ 7 ∷ [], some 7)
    else if ltb (length three) 3
    then (three ++ 7 ∷ [], none)
    else Bucket.pop_front three)
try_insert_cases_example = try_insert_cases ℕ_discrete 3 three 7 three-IsBucket

try_insert-IsBucket_example : IsBucket ℕ_discrete 3 (Bucket.try_insert ℕ_discrete 3 three 7).0
try_insert-IsBucket_example = try_insert-IsBucket ℕ_discrete 3 three 7 (omega arith) three-IsBucket

mod_fits : (p : ℕ) → p % 2 ^ Key.key_bits < 2 ^ Key.key_bits
mod_fits p = omega arith

abbrev numbers : Identity
numbers = record {
  PeerId = ℕ;
  discrete = ℕ_discrete;
  key_of = λ p. p % 2 ^ Key.key_bits;
  key_of-lt = mod_fits;
}

abbrev local : ℕ
local = 0

abbrev nobody : Table ℕ
nobody = Table.empty local

nobody-IsTable : IsTable numbers 1 nobody
nobody-IsTable = empty-IsTable numbers 1 local (omega arith)

-- A table for buckets of one peer, with one peer.
abbrev one_peer : Table ℕ
one_peer = record {
  local_key = local;
  k_buckets = (5 ∷ []) ∷ [];
  k_index = set (replicate Key.key_bits none) 2 (some 0);
}

unfoldable program : Unit {0}
unfolding Table.try_insert Table.empty Bucket.try_insert Key.k_index Key.k_index_at
    Key.leading_zeros Key.distance ℕ_discrete
program = tt

one_peer_inserted : Table.try_insert numbers 1 nobody 5 ≡ done (one_peer, none)
unfolding program
one_peer_inserted = refl

try_insert-Inserted_example :
    (i : ℕ) × (Table.peer_index numbers 1 nobody.local_key 5 ≡ some i)
    × (i < Key.key_bits)
    × Inserted numbers 1 nobody 5 (omega arith) nobody-IsTable i
try_insert-Inserted_example =
    try_insert-Inserted numbers 1 nobody 5 (omega arith) nobody-IsTable
      (unfold Table.empty in omega arith)

table_of : Outcome (Table ℕ × Option ℕ) → Table ℕ
table_of (done r) = r.0
table_of panic = nobody
table_of out_of_fuel = nobody

one_peer-IsTable : IsTable numbers 1 one_peer
one_peer-IsTable =
    let (i, e, h, x) = try_insert-Inserted_example in
    let same : x.table ≡ one_peer =
      unfold table_of in ap table_of (sym x.returns ∙ one_peer_inserted) in
    subst (IsTable numbers 1) same x.valid

closest-visited_example :
    Closest.closest 1 one_peer 4
    ≡ done (
        take 1 (
          visited
            (peers_at one_peer)
            (Option.get_or (Key.k_index (Key.distance 4 one_peer.local_key)) 1)))
closest-visited_example = closest-visited numbers 1 one_peer one_peer-IsTable 4 (omega arith)

closest_runs : Closest.closest 1 one_peer 200 ≡ done (5 ∷ [])
unfolding program Closest.closest Table.bucket
closest_runs = refl

-- A table for buckets of one peer, with peers at the distances 2 and 16 of the local key.
abbrev two_peers : Table ℕ
two_peers = record {
  local_key = local;
  k_buckets = (2 ∷ []) ∷ (16 ∷ []) ∷ [];
  k_index = set (set (replicate Key.key_bits none) 1 (some 0)) 4 (some 1);
}

two_peers_inserted :
    (Table.try_insert numbers 1 nobody 2 >>= λ r. Table.try_insert numbers 1 r.0 16)
    ≡ done (two_peers, none)
unfolding program
two_peers_inserted = refl

-- The one peer that is given for the key 8 is the farther of the two.
closest_far :
    (Closest.closest 1 two_peers 8 ≡ done (16 ∷ []))
    × (Key.distance 8 2 ≡ 10)
    × (Key.distance 8 16 ≡ 24)
unfolding program Closest.closest Table.bucket
closest_far = (refl, refl, refl)

abbrev one_state : State ℕ
one_state = record { table = one_peer; len = 1; pings = [] }

refresh_full_example :
    (s₁ : State ℕ) × (insert numbers 1 one_state 4 ≡ done s₁)
    × (s₁.pings ≡ one_state.pings ++ ping_of numbers 1 (omega arith) 5 4 ∷ [])
    × (peers_at s₁.table 2 ≡ [])
    × ((s₂ : State ℕ) × (on_ping numbers 1 s₁ (ping_of numbers 1 (omega arith) 5 4) false ≡ done s₂)
        × (peers_at s₂.table 2 ≡ [] ++ (if false then 4 else 5) ∷ []))
unfolding program peers_at view
refresh_full_example =
    refresh_full numbers 1 (omega arith) one_state 4 5 [] 2 false one_peer-IsTable (omega arith)
      (omega arith) refl refl refl refl refl

abbrev history : List (Event ℕ)
history = connected 5 ∷ connected 4 ∷ connected 9 ∷ pinged 0 false ∷ []

run-IsCounted_example :
    (s : State ℕ) × (run numbers 1 (bind numbers 1 local) history ≡ done s)
    × IsTable numbers 1 s.table
    × (s.len ≡ total s.table)
run-IsCounted_example =
    run-IsCounted numbers 1 (omega arith) (omega arith) local history (omega arith)

abbrev replies : ℕ → Answer ℕ
replies p = if p == 1 then closest (2 ∷ 3 ∷ []) else if p == 2 then closest (1 ∷ []) else failed

abbrev lookup : Lookup
lookup = record { key = 0; const_k = 2; concurrency = 1 }

abbrev network : List ℕ
network = 1 ∷ 2 ∷ 3 ∷ []

route_runs : route numbers lookup replies (λ s. 0) 12 (1 ∷ []) ≡ returned (1 ∷ 2 ∷ [])
unfolding program route Routing.is_closer
route_runs = refl

replies_known : (p : ℕ) → All (λ q. contains ℕ_discrete network q ≡ true) (peers_of (replies p))
unfolding peers_of
replies_known p = ground arith

route-nearest_example :
    (peers : List ℕ) × (route numbers lookup replies
        (λ s. 0)
        (enough_fuel numbers lookup replies network (1 ∷ []))
        (1 ∷ [])
      ≡ returned peers)
    × ((x : Ended numbers lookup replies (λ s. 0) (1 ∷ []) peers) × (peers
          ≡ nearest
              (rank numbers lookup)
              lookup.const_k
              (x.answered ++ heard numbers lookup replies (λ s. 0) x.phase x.state))
        × (length peers ≤ lookup.const_k)
        × IsSorted (rank numbers lookup) peers
        × Distinct x.queries)
route-nearest_example =
    route-nearest numbers lookup replies (λ s. 0) (1 ∷ []) network replies_known (ground arith)
      (omega arith)
