-- ===== src/Kad/Routing/Termination.antt =====
-- The lookup ends: each round spends some of a sum over the peers that have not been asked, the
-- queries under way and the candidates.
use native.Mathlib.Nat.{mod-lt}
use xstack.Base.{
  ℕ, zero, suc, ◌+◌, ◌*◌, ◌≤◌, ◌<◌, ◌≡◌, inl, inr, refl, ap, List, [], ◌∷◌, ◌++◌, some, Bool, true,
  false, ◌&&◌, ◌||◌, not, if◌then◌else◌, length, length-append, get_elem?, get_elem?-some, contains,
  All, All-append, arith, Bool-cases, ◌==◌, subst,
}
use xstack.Kad.Bucket.{remove_at}
use xstack.Kad.Table.{Identity}
use xstack.Kad.Routing.{
  Answer, closest, finished, failed, Search, Phase, take_candidate, await_answers, Progress, more,
  returned, unwrap_none, Lookup, is_closer, push_candidates, admit, waits, picked, receive,
  next_answer, take_next, step, continue, route, is_empty,
}

module _ {PeerId : Type 0} where
  unfoldable pub peers_of : Answer PeerId → List PeerId
  peers_of (closest ps) = ps
  peers_of finished = []
  peers_of failed = []

  -- What a query can cost: its own end, and two rounds for each peer that it names.
  weight : Answer PeerId → ℕ
  unfolding peers_of
  weight a = 1 + 2 * length (peers_of a)

module _ (I : Identity) (L : Lookup) (answer : I.PeerId → Answer I.PeerId)
    (universe : List I.PeerId) where
  open I use {PeerId, discrete}

  -- The cost of the queries that have not been made.
  open_cost : List PeerId → List PeerId → ℕ
  open_cost [] queried = 0
  open_cost (p ∷ ps) queried =
      (if contains discrete queried p then 0 else weight (answer p)) + open_cost ps queried

  sum_weight : List PeerId → ℕ
  sum_weight [] = 0
  sum_weight (p ∷ ps) = weight (answer p) + sum_weight ps

  phase_cost : Phase → ℕ
  phase_cost take_candidate = 0
  phase_cost await_answers = 1

  measure : Phase → Search PeerId → ℕ
  unfolding open_cost sum_weight phase_cost
  measure phase s =
      open_cost universe s.queried
      + sum_weight s.pending
      + 2 * length s.candidates
      + phase_cost phase

  abbrev Known : PeerId → Type 0
  Known p = contains discrete universe p ≡ true

  open_cost-cons :
      (ps queried : List PeerId) (p : PeerId) → open_cost ps (p ∷ queried) ≤ open_cost ps queried
  unfolding open_cost
  open_cost-cons [] queried p = omega arith
  open_cost-cons (q ∷ ps) queried p = ground (arith, open_cost-cons ps queried p)

  open_cost-fresh :
      (ps queried : List PeerId) (p : PeerId)
      → contains discrete ps p ≡ true
      → contains discrete queried p ≡ false
      → open_cost ps (p ∷ queried) + weight (answer p) ≤ open_cost ps queried
  unfolding open_cost
  open_cost-fresh [] queried p h fresh = absurd (cc)
  open_cost-fresh (q ∷ ps) queried p h fresh = elim (discrete q p) [
    | yes e ↦ ground (arith, open_cost-cons ps queried p)
    | no ne ↦ ground (arith, open_cost-fresh ps queried p)
  ]

  sum_weight-append :
      (ps : List PeerId) (p : PeerId)
      → sum_weight (ps ++ p ∷ []) ≡ sum_weight ps + weight (answer p)
  unfolding sum_weight
  sum_weight-append [] p = omega arith
  sum_weight-append (q ∷ ps) p = omega (arith, sum_weight-append ps p)

  sum_weight-remove_at :
      (ps : List PeerId) (i : ℕ) (p : PeerId)
      → get_elem? ps i ≡ some p
      → sum_weight (remove_at ps i) + weight (answer p) ≡ sum_weight ps
  unfolding sum_weight remove_at
  sum_weight-remove_at [] i p e = absurd (cc)
  sum_weight-remove_at (q ∷ ps) zero p e = ground arith
  sum_weight-remove_at (q ∷ ps) (suc i) p e = omega (arith, sum_weight-remove_at ps i p e)

  length-push_candidates :
      (s : Search PeerId) (ps out : List PeerId)
      → length (push_candidates I L s ps out) ≤ length out + length ps
  unfolding push_candidates
  length-push_candidates s [] out = omega arith
  length-push_candidates s (p ∷ ps) out = ground (
    arith,
    length-push_candidates s ps out,
    length-push_candidates s ps (out ++ p ∷ []),
    length-append out (p ∷ []),
  )

  push_candidates-Known :
      (s : Search PeerId) (ps out : List PeerId)
      → All Known ps
      → All Known out
      → All Known (push_candidates I L s ps out)
  unfolding push_candidates
  push_candidates-Known s [] out h o = o
  push_candidates-Known s (p ∷ ps) out h o =
      push_candidates-Known s ps _ h.1
        (go (contains discrete s.queried p) (not (is_closer I L s.closest_k p)))
    where
      go : (a b : Bool) → All Known (if a then out else if b then out else out ++ p ∷ [])
      go true b = o
      go false true = o
      go false false = All-append Known out (p ∷ []) o (h.0, tt)

  -- A step that goes on spends some of the measure, and no step runs into `unwrap` on nothing.
  abbrev Falls : ℕ → Progress PeerId → Type 0
  Falls n (more phase s) = (measure phase s < n) × All Known s.candidates
  Falls n (returned peers) = Unit
  Falls n unwrap_none = ⊥

  admit-Falls :
      (s : Search PeerId) (p : PeerId) (ps : List PeerId)
      → s.candidates ≡ p ∷ ps
      → All Known (p ∷ ps)
      → Falls
          (measure take_candidate s)
          (more await_answers (admit I L (record s { candidates = ps }) p))
  unfolding admit measure phase_cost
  admit-Falls s p ps e known = ground (
    arith,
    ap length e,
    open_cost-cons universe s.queried p,
    open_cost-fresh universe s.queried p known.0,
    sum_weight-append s.pending p,
  )

  some_pending :
      (cs ps : List PeerId) (n : ℕ)
      → ((is_empty cs && not (is_empty ps)) || (length ps == n)) ≡ true
      → 0 < n
      → 0 < length ps
  some_pending cs (p ∷ ps) n h pos = omega arith
  some_pending [] [] n h pos = ground arith
  some_pending (c ∷ cs) [] n h pos = ground arith

  module _ (pick : Search PeerId → ℕ) (known : (p : PeerId) → All Known (peers_of (answer p))) where
    receive-Falls :
        (s : Search PeerId) (p : PeerId) (a : Answer PeerId)
        → answer p ≡ a
        → get_elem? s.pending (picked I L answer pick s) ≡ some p
        → All Known s.candidates
        → Falls (measure await_answers s) (
            receive I L answer pick
              (record s { pending = remove_at s.pending (picked I L answer pick s) })
              p
              a)
    unfolding receive measure phase_cost weight
    receive-Falls s p (closest ps) e at_p c =
        let i = picked I L answer pick s in
        let s' = record s { pending = remove_at s.pending i } in
        let named : All Known ps =
          unfold peers_of in subst (λ a. All Known (peers_of a)) e (known p) in
        let cost : weight (answer p) ≡ 1 + 2 * length ps = ap weight e in
        (
          omega (
            arith,
            cost,
            sum_weight-remove_at s.pending i p at_p,
            length-push_candidates s' ps s.candidates,
          ),
          push_candidates-Known s' ps s.candidates named c,
        )
    receive-Falls s p finished e at_p c = tt
    receive-Falls s p failed e at_p c =
        let cost : weight (answer p) ≡ 1 = ap weight e in
        (omega (arith, cost, sum_weight-remove_at s.pending (picked I L answer pick s) p at_p), c)

    step-Falls :
        (phase : Phase) (s : Search PeerId)
        → 0 < L.concurrency
        → All Known s.candidates
        → Falls (measure phase s) (step I L answer pick phase s)
    unfolding step
    step-Falls take_candidate s pos c = go s.candidates refl
      where
        go :
            (ps : List PeerId)
            → s.candidates ≡ ps
            → Falls (measure take_candidate s) (take_next I L answer pick s ps)
        go [] e = unfold take_next in tt
        go (p ∷ ps) e = unfold take_next in admit-Falls s p ps e (subst (All Known) e c)
    step-Falls await_answers s pos c = elim (Bool-cases (waits I L s)) [
      | inr ready ↦ rw ready (unfold measure phase_cost in (omega arith, c))
      | inl waiting ↦
          let i = picked I L answer pick s in
          let (p, at_p) =
            get_elem?-some s.pending i
              (mod-lt (pick s) (some_pending s.candidates s.pending L.concurrency waiting pos)) in
          rw (waiting, at_p) (unfold next_answer in receive-Falls s p (answer p) refl at_p c)
    ]

    -- With fuel for the measure the search returns.
    continue-returned :
        (fuel : ℕ) (phase : Phase) (s : Search PeerId)
        → 0 < L.concurrency
        → All Known s.candidates
        → measure phase s < fuel
        → (peers : List PeerId) × (continue I L answer pick fuel (more phase s) ≡ returned peers)
    unfolding continue
    continue-returned zero phase s pos c h = absurd (omega arith)
    continue-returned (suc fuel) phase s pos c h =
        go fuel (step I L answer pick phase s) (step-Falls phase s pos c)
          (λ phase' s' c' h'. continue-returned fuel phase' s' pos c' (omega arith))
      where
        go :
            (fuel : ℕ) (r : Progress PeerId)
            → Falls (measure phase s) r
            → ((phase' : Phase) (s' : Search PeerId)
                → All Known s'.candidates
                → measure phase' s' < measure phase s
                → (peers : List PeerId) × (continue I L answer pick fuel (more phase' s')
                    ≡ returned peers))
            → (peers : List PeerId) × (continue I L answer pick fuel r ≡ returned peers)
        go fuel (more phase' s') f again = again phase' s' f.1 f.0
        go zero (returned peers) f again = (peers, refl)
        go (suc fuel) (returned peers) f again = (peers, refl)
        go fuel unwrap_none f again = absurd f

  -- Rounds that are enough for a lookup in this network.
  pub enough_fuel : List PeerId → ℕ
  unfolding measure
  enough_fuel seeds = suc (sum_weight universe + 2 * length seeds)

  open_cost-nil : (ps : List PeerId) → open_cost ps [] ≡ sum_weight ps
  unfolding open_cost sum_weight
  open_cost-nil [] = refl
  open_cost-nil (p ∷ ps) = omega (arith, open_cost-nil ps)

  -- In a network of finitely many peers, which only name one another, a lookup from seeds among
  -- them ends and never unwraps nothing, whatever the peers answer and in whatever order the answers
  -- come, for a `concurrency` above 0.
  pub route-returned :
      (pick : Search PeerId → ℕ) (seeds : List PeerId)
      → ((p : PeerId) → All Known (peers_of (answer p)))
      → All Known seeds
      → 0 < L.concurrency
      → (peers : List PeerId) × (route I L answer pick (enough_fuel seeds) seeds ≡ returned peers)
  unfolding route
  route-returned pick seeds known start pos =
      continue-returned pick known (enough_fuel seeds) take_candidate _ pos start
        (unfold enough_fuel measure phase_cost sum_weight in omega (arith, open_cost-nil universe))
