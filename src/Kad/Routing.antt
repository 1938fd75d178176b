-- ===== src/Kad/Routing.antt =====
-- `Recursively` of crates/kad/src/router.rs: the iterative lookup. The queries that are under way are
-- a list; which of them ends next, and what each peer answers, are parameters.
pub mod Sorting
pub mod Closest
pub mod Termination
pub mod Total
use xstack.Base.{
  ℕ, zero, suc, ◌+◌, ◌-◌, ◌%◌, ◌<◌, List, [], ◌∷◌, ◌++◌, Option, none, some, Bool, true, false,
  ◌&&◌, ◌||◌, not, if◌then◌else◌, length, take, get_elem?, contains, ltb, leb, ◌==◌,
}
use xstack.Kad.Bucket.{remove_at}
use xstack.Kad.Key
use xstack.Kad.Table.{Identity}

-- What a query gives: `Ok(Routing::Closest(..))`, `Ok(Routing::Finished)` or an error.
pub data Answer (PeerId : Type 0) : Type 0 where
  closest : List PeerId → Answer PeerId
  finished failed : Answer PeerId

-- The fields of `Recursively` that change, and the queries under way, `unorderd`.
pub record Search (PeerId : Type 0) : Type 0 where
  pub closest_k : List PeerId
  pub queried : List PeerId
  pub candidates : List PeerId
  pub pending : List PeerId

-- The outer `while let` is about to take a candidate, or the inner `while` to test its condition.
pub data Phase : Type 0 where
  take_candidate await_answers : Phase

pub data Progress (PeerId : Type 0) : Type 0 where
  more : Phase → Search PeerId → Progress PeerId
  returned : List PeerId → Progress PeerId
  unwrap_none : Progress PeerId

abbrev pub is_empty {ℓ} : {A : Type ℓ} → List A → Bool
is_empty [] = true
is_empty (x ∷ xs) = false

abbrev pub last {ℓ} : {A : Type ℓ} → List A → Option A
last [] = none
last (x ∷ []) = some x
last (x ∷ y ∷ xs) = last (y ∷ xs)

module _ {ℓ} {A : Type ℓ} (rank : A → ℕ) where
  -- `sort_by` on a rank: stable, as the standard library promises.
  unfoldable pub insert_sorted : A → List A → List A
  insert_sorted x [] = x ∷ []
  insert_sorted x (y ∷ ys) = if leb (rank x) (rank y) then x ∷ y ∷ ys else y ∷ insert_sorted x ys

  unfoldable pub sort_by : List A → List A
  unfolding insert_sorted
  sort_by [] = []
  sort_by (x ∷ xs) = insert_sorted x (sort_by xs)

-- The parameters of one lookup: the key that is searched, `const_k` and `concurrency`.
pub record Lookup : Type 0 where
  pub key : ℕ
  pub const_k : ℕ
  pub concurrency : ℕ

module _ (I : Identity) (L : Lookup) where
  open I use {PeerId, discrete, key_of}
  open L use {key, const_k, concurrency}

  abbrev pub rank : PeerId → ℕ
  rank p = Key.distance (key_of p) key

  unfoldable pub keep_closest : List PeerId → PeerId → List PeerId
  unfolding sort_by
  keep_closest known p =
      let sorted = sort_by rank (known ++ p ∷ []) in
      if ltb const_k (length sorted) then take const_k sorted else sorted

  -- `add_closest_k`.
  abbrev pub add_closest_k : Search PeerId → PeerId → Search PeerId
  add_closest_k s p = record s { closest_k = keep_closest s.closest_k p }

  closer_than_last : PeerId → Option PeerId → Bool
  closer_than_last p (some l) = ltb (rank p) (rank l)
  closer_than_last p none = true

  -- `is_closer`.
  unfoldable pub is_closer : List PeerId → PeerId → Bool
  unfolding closer_than_last
  is_closer known p = if ltb (length known) const_k then true else closer_than_last p (last known)

  -- The `for` over the peers of an answer.
  unfoldable pub push_candidates : Search PeerId → List PeerId → List PeerId → List PeerId
  unfolding is_closer
  push_candidates s [] out = out
  push_candidates s (p ∷ ps) out = push_candidates s ps (
      if contains discrete s.queried p
      then out
      else if not (is_closer s.closest_k p)
      then out
      else out ++ p ∷ [])

  -- The body of the outer loop up to the inner one, the once-run `loop` with its `break`s.
  unfoldable pub admit : Search PeerId → PeerId → Search PeerId
  unfolding is_closer
  admit s p =
      if contains discrete s.queried p
      then s
      else if not (is_closer s.closest_k p)
      then record s { queried = p ∷ s.queried }
      else record s { queried = p ∷ s.queried; pending = s.pending ++ p ∷ [] }

  -- The condition of the inner loop.
  abbrev pub waits : Search PeerId → Bool
  waits s = (is_empty s.candidates && not (is_empty s.pending)) || (length s.pending == concurrency)

  module _ (answer : PeerId → Answer PeerId) (pick : Search PeerId → ℕ) where
    -- The place among the queries under way of the one that ends next.
    abbrev pub picked : Search PeerId → ℕ
    picked s = pick s % length s.pending

    -- The arms of the `match` on the result of a query.
    unfoldable pub receive : Search PeerId → PeerId → Answer PeerId → Progress PeerId
    unfolding push_candidates keep_closest
    receive s p (closest ps) =
        more await_answers
          (add_closest_k (record s { candidates = push_candidates s ps s.candidates }) p)
    receive s p finished = returned (keep_closest s.closest_k p)
    receive s p failed = more await_answers s

    unfoldable pub next_answer : Search PeerId → Option PeerId → Progress PeerId
    unfolding receive
    next_answer s none = unwrap_none
    next_answer s (some p) =
        receive (record s { pending = remove_at s.pending (picked s) }) p (answer p)

    unfoldable pub take_next : Search PeerId → List PeerId → Progress PeerId
    unfolding admit
    take_next s [] = returned s.closest_k
    take_next s (p ∷ ps) = more await_answers (admit (record s { candidates = ps }) p)

    -- One round of the inner loop, or what the outer one does before it.
    unfoldable pub step : Phase → Search PeerId → Progress PeerId
    unfolding take_next next_answer
    step take_candidate s = take_next s s.candidates
    step await_answers s =
        if waits s then next_answer s (get_elem? s.pending (picked s)) else more take_candidate s

    -- `Recursively::route`, with fuel for its two loops.
    unfoldable pub continue : ℕ → Progress PeerId → Progress PeerId
    unfolding step
    continue zero r = r
    continue (suc fuel) (more phase s) = continue fuel (step phase s)
    continue (suc fuel) (returned peers) = returned peers
    continue (suc fuel) unwrap_none = unwrap_none

    -- `Recursively::new` and `route`.
    unfoldable pub route : ℕ → List PeerId → Progress PeerId
    unfolding continue
    route fuel seeds = continue fuel (
        more take_candidate
          (record { closest_k = []; queried = []; candidates = seeds; pending = [] }))
