-- ===== src/Kad/Routing/Total.antt =====
-- The whole lookup: it ends, and what it returns is the end of a reached state.
use xstack.Base.{
  ℕ, zero, suc, ◌≤◌, ◌<◌, ◌≡◌, refl, ◌∙◌, List, ◌++◌, true, length, contains, All, Distinct,
}
use xstack.Kad.Table.{Identity}
use xstack.Kad.Routing.{
  Answer, Search, Phase, Progress, more, returned, unwrap_none, Lookup, step, continue, route, rank,
}
use xstack.Kad.Routing.Closest.{Reached, start, next, heard, returned-nearest}
use xstack.Kad.Routing.Sorting.{nearest, IsSorted}
use xstack.Kad.Routing.Termination.{peers_of, enough_fuel, route-returned}

module _ (I : Identity) (L : Lookup) (answer : I.PeerId → Answer I.PeerId)
    (pick : Search I.PeerId → ℕ) (seeds : List I.PeerId) where
  open I use {PeerId, discrete}

  -- The end of a lookup: the state before the step that returned, the peers that were asked, and
  -- those that answered up to that step.
  pub record Ended (peers : List PeerId) : Type 0 where
    pub phase : Phase
    pub state : Search PeerId
    pub queries : List PeerId
    pub answered : List PeerId
    pub reached : Reached I L answer pick seeds phase state queries answered
    pub last_step : step I L answer pick phase state ≡ returned peers

  continue-Ended :
      (fuel : ℕ) {phase : Phase} {s : Search PeerId} {qs rs : List PeerId} (peers : List PeerId)
      → Reached I L answer pick seeds phase s qs rs
      → continue I L answer pick fuel (more phase s) ≡ returned peers
      → Ended peers
  unfolding continue
  continue-Ended zero peers r e = absurd (cc)
  continue-Ended (suc fuel) {phase = phase} {s = s} {qs = qs} {rs = rs} peers r e =
      go fuel (step I L answer pick phase s) refl e
        (λ phase' s' st e'. continue-Ended fuel peers (next r st refl refl) e')
    where
      go :
          (fuel : ℕ) (x : Progress PeerId)
          → step I L answer pick phase s ≡ x
          → continue I L answer pick fuel x ≡ returned peers
          → ((phase' : Phase) (s' : Search PeerId)
              → step I L answer pick phase s ≡ more phase' s'
              → continue I L answer pick fuel (more phase' s') ≡ returned peers
              → Ended peers)
          → Ended peers
      go fuel (more phase' s') st e again = again phase' s' st e
      go zero (returned l) st e again = record {
        phase = phase;
        state = s;
        queries = qs;
        answered = rs;
        reached = r;
        last_step = st ∙ e;
      }
      go (suc fuel) (returned l) st e again = record {
        phase = phase;
        state = s;
        queries = qs;
        answered = rs;
        reached = r;
        last_step = st ∙ e;
      }
      go zero unwrap_none st e again = absurd (cc)
      go (suc fuel) unwrap_none st e again = absurd (cc)

  -- A lookup in a finite network, whose peers name only one another, returns: the `const_k` peers
  -- nearest to the key, in ascending order of distance, among all that answered it, and it asks no
  -- peer twice. This holds whatever the peers answer, in whatever order the answers come, for every
  -- `concurrency` above 0 and for seeds in the network.
  pub route-nearest :
      (universe : List PeerId)
      → ((p : PeerId) → All (λ q. contains discrete universe q ≡ true) (peers_of (answer p)))
      → All (λ q. contains discrete universe q ≡ true) seeds
      → 0 < L.concurrency
      → (peers : List PeerId) × (route I L answer pick (enough_fuel I L answer universe seeds) seeds
          ≡ returned peers)
        × ((x : Ended peers) × (peers
              ≡ nearest (rank I L) L.const_k (x.answered ++ heard I L answer pick x.phase x.state))
            × (length peers ≤ L.const_k)
            × IsSorted (rank I L) peers
            × Distinct x.queries)
  route-nearest universe known from pos =
      let (peers, e) = route-returned I L answer universe pick seeds known from pos in
      let x =
        continue-Ended (enough_fuel I L answer universe seeds) peers (start _ refl)
          (unfold route in e) in
      let (best, few, sorted, once) =
        returned-nearest I L answer pick peers x.reached x.last_step in
      (peers, e, (x, best, few, sorted, once))
