-- ===== src/Kad/Routing/Closest.antt =====
-- What a lookup returns, over every step that leads to it.
use mathlib.Core.List.{append-nil}
use xstack.Base.{
  ℕ, zero, suc, ◌≤◌, ◌≡◌, ◌≢◌, inl, inr, refl, sym, ap, ◌∙◌, subst, List, [], ◌∷◌, ◌++◌, Option,
  none, some, true, false, not, if◌then◌else◌, length, length-take, take_of_length-le, get_elem?,
  contains, All, All-append, All-map, Distinct, Distinct-append_last, arith, Bool-cases, ltb,
}
use xstack.Kad.Bucket.{remove_at}
use xstack.Kad.Table.{Identity}
use xstack.Kad.Routing.{
  Answer, closest, finished, failed, Search, Phase, take_candidate, await_answers, Progress, more,
  returned, unwrap_none, Lookup, is_closer, admit, waits, picked, receive, next_answer, take_next,
  step, keep_closest, rank, sort_by,
}
use xstack.Kad.Routing.Sorting.{
  nearest, nearest-append_last, IsSorted, sort_by-IsSorted, take-IsSorted,
}

length-remove_at {ℓ} :
    {A : Type ℓ} (xs : List A) (i : ℕ) (a : A)
    → get_elem? xs i ≡ some a
    → suc (length (remove_at xs i)) ≡ length xs
unfolding remove_at
length-remove_at [] i a e = absurd (ground arith)
length-remove_at (x ∷ xs) zero a e = refl
length-remove_at (x ∷ xs) (suc i) a e = ap suc (length-remove_at xs i a e)

module _ (I : Identity) (L : Lookup) (answer : I.PeerId → Answer I.PeerId)
    (pick : Search I.PeerId → ℕ) where
  open I use {PeerId, discrete}

  abbrev nearest_k : List PeerId → List PeerId
  nearest_k = nearest (rank I L) L.const_k

  -- The peer whose answer a step takes in, if it is no error.
  unfoldable pub responder : PeerId → Answer PeerId → List PeerId
  responder p (closest ps) = p ∷ []
  responder p finished = p ∷ []
  responder p failed = []

  abbrev pub responder_at : Option PeerId → List PeerId
  responder_at none = []
  responder_at (some p) = responder p (answer p)

  unfoldable pub heard : Phase → Search PeerId → List PeerId
  unfolding responder
  heard take_candidate s = []
  heard await_answers s =
      if waits I L s then responder_at (get_elem? s.pending (picked I L answer pick s)) else []

  -- The peer that a step asks, if any.
  abbrev asked_from : Search PeerId → List PeerId → List PeerId
  asked_from s [] = []
  asked_from s (p ∷ ps) =
      if contains discrete s.queried p
      then []
      else if not (is_closer I L s.closest_k p)
      then []
      else p ∷ []

  unfoldable pub asked : Phase → Search PeerId → List PeerId
  asked take_candidate s = asked_from s s.candidates
  asked await_answers s = []

  -- The states that a lookup reaches, with the peers that it has asked and those that have answered.
  pub data Reached (seeds : List PeerId)
      : Phase → Search PeerId → List PeerId → List PeerId → Type 0 where
    start :
        (s : Search PeerId)
        → s ≡ record { closest_k = []; queried = []; candidates = seeds; pending = [] }
        → Reached seeds take_candidate s [] []
    next :
        {phase phase' : Phase} {s s' : Search PeerId} {qs rs qs' rs' : List PeerId}
        → Reached seeds phase s qs rs
        → step I L answer pick phase s ≡ more phase' s'
        → qs' ≡ qs ++ asked phase s
        → rs' ≡ rs ++ heard phase s
        → Reached seeds phase' s' qs' rs'

  -- What holds at each state.
  record Inv (phase : Phase) (s : Search PeerId) (qs rs : List PeerId) : Type 0 where
    nearest_heard : s.closest_k ≡ nearest_k rs
    once : Distinct qs
    queried_all : All (λ p. contains discrete s.queried p ≡ true) qs

  keep_closest-nearest :
      (rs : List PeerId) (p : PeerId) → keep_closest I L (nearest_k rs) p ≡ nearest_k (rs ++ p ∷ [])
  unfolding keep_closest
  keep_closest-nearest rs p =
      let sorted = sort_by (rank I L) (nearest_k rs ++ p ∷ []) in
      elim (Bool-cases (ltb L.const_k (length sorted))) [
        | inl long ↦ rw long (nearest-append_last (rank I L) L.const_k rs p)
        | inr short ↦ rw short (
            sym (take_of_length-le L.const_k sorted (ground arith))
            ∙ nearest-append_last (rank I L) L.const_k rs p)
      ]

  -- What a step makes of the invariant.
  abbrev Keeps : List PeerId → List PeerId → Progress PeerId → Type 0
  Keeps qs rs (more phase s) = Inv phase s qs rs
  Keeps qs rs (returned peers) = peers ≡ nearest_k rs
  Keeps qs rs unwrap_none = Unit

  receive-Keeps :
      (s : Search PeerId) (p : PeerId) (a : Answer PeerId) (qs rs : List PeerId)
      → Inv await_answers s qs rs
      → Keeps qs (rs ++ responder p a) (receive I L answer pick s p a)
  unfolding receive responder
  receive-Keeps s p (closest ps) qs rs v = record {
    nearest_heard = ap (λ l. keep_closest I L l p) v.nearest_heard ∙ keep_closest-nearest rs p;
    once = v.once;
    queried_all = v.queried_all;
  }
  receive-Keeps s p finished qs rs v =
      ap (λ l. keep_closest I L l p) v.nearest_heard ∙ keep_closest-nearest rs p
  receive-Keeps s p failed qs rs v = record {
    nearest_heard = v.nearest_heard ∙ ap nearest_k (sym (append-nil rs));
    once = v.once;
    queried_all = v.queried_all;
  }

  queried-cons :
      (q : List PeerId) (p : PeerId) (qs : List PeerId)
      → All (λ a. contains discrete q a ≡ true) qs
      → All (λ a. contains discrete (p ∷ q) a ≡ true) qs
  queried-cons q p qs = All-map _ _ (λ a h. ground arith) qs

  queried-fresh :
      (q : List PeerId) (p : PeerId) (qs : List PeerId)
      → contains discrete q p ≡ false
      → All (λ a. contains discrete q a ≡ true) qs
      → All (λ a. a ≢ p) qs
  queried-fresh q p qs fresh =
      All-map _ _ (λ a h e. absurd (cc (sym h ∙ ap (contains discrete q) e ∙ fresh))) qs

  admit-Keeps :
      (s : Search PeerId) (p : PeerId) (ps qs rs : List PeerId)
      → Inv take_candidate s qs rs
      → Inv await_answers
          (admit I L (record s { candidates = ps }) p)
          (qs ++ asked_from s (p ∷ ps))
          (rs ++ [])
  unfolding admit
  admit-Keeps s p ps qs rs v = elim (Bool-cases (contains discrete s.queried p)) [
    | inl old ↦
        rw (old, append-nil, append-nil)
          (record { nearest_heard = v.nearest_heard; once = v.once; queried_all = v.queried_all })
    | inr fresh ↦ elim (Bool-cases (not (is_closer I L s.closest_k p))) [
      | inl farther ↦
          rw (fresh, farther, append-nil, append-nil)
            (record {
              nearest_heard = v.nearest_heard;
              once = v.once;
              queried_all = queried-cons s.queried p qs v.queried_all;
            })
      | inr closer ↦
          rw (fresh, closer, append-nil)
            (record {
              nearest_heard = v.nearest_heard;
              once =
                  Distinct-append_last qs p v.once
                    (queried-fresh s.queried p qs fresh v.queried_all);
              queried_all =
                  All-append _ qs (p ∷ []) (queried-cons s.queried p qs v.queried_all)
                    (ground arith, tt);
            })
    ]
  ]

  step-Keeps :
      (phase : Phase) (s : Search PeerId) (qs rs : List PeerId)
      → Inv phase s qs rs
      → Keeps (qs ++ asked phase s) (rs ++ heard phase s) (step I L answer pick phase s)
  unfolding step asked heard
  step-Keeps take_candidate s qs rs v = go s.candidates
    where
      go :
          (ps : List PeerId)
          → Keeps (qs ++ asked_from s ps) (rs ++ []) (take_next I L answer pick s ps)
      go [] = unfold take_next in v.nearest_heard ∙ ap nearest_k (sym (append-nil rs))
      go (p ∷ ps) = unfold take_next in admit-Keeps s p ps qs rs v
  step-Keeps await_answers s qs rs v = elim (Bool-cases (waits I L s)) [
    | inr ready ↦
        rw (ready, append-nil, append-nil)
          (record { nearest_heard = v.nearest_heard; once = v.once; queried_all = v.queried_all })
    | inl waiting ↦ rw (waiting, append-nil) (go (get_elem? s.pending (picked I L answer pick s)))
  ]
    where
      go : (o : Option PeerId) → Keeps qs (rs ++ responder_at o) (next_answer I L answer pick s o)
      go none = unfold next_answer in tt
      go (some p) =
          unfold next_answer in
          receive-Keeps (record s { pending = remove_at s.pending (picked I L answer pick s) }) p
            (answer p) qs rs
            (record { nearest_heard = v.nearest_heard; once = v.once; queried_all = v.queried_all })

  nearest-nil : nearest_k [] ≡ []
  unfolding nearest sort_by
  nearest-nil = take_of_length-le L.const_k [] (omega arith)

  Reached-Inv :
      {seeds : List PeerId} {phase : Phase} {s : Search PeerId} {qs rs : List PeerId}
      → Reached seeds phase s qs rs
      → Inv phase s qs rs
  Reached-Inv (start s e) = record {
    nearest_heard = ap (λ (r : Search PeerId). r.closest_k) e ∙ sym nearest-nil;
    once = tt;
    queried_all = tt;
  }
  Reached-Inv (next {phase = phase} {s = s} {qs = qs} {rs = rs} r st e e') =
      rw (e, e')
        (subst (Keeps (qs ++ asked phase s) (rs ++ heard phase s)) st
          (step-Keeps phase s qs rs (Reached-Inv r)))

  -- A lookup returns the `const_k` peers nearest to the key, in ascending order of distance, among
  -- all that have answered its queries; it asks no peer twice. This holds whatever the peers answer
  -- and in whatever order.
  pub returned-nearest :
      {seeds : List PeerId} {phase : Phase} {s : Search PeerId} {qs rs : List PeerId}
      (peers : List PeerId)
      → Reached seeds phase s qs rs
      → step I L answer pick phase s ≡ returned peers
      → (peers ≡ nearest (rank I L) L.const_k (rs ++ heard phase s))
        × (length peers ≤ L.const_k)
        × IsSorted (rank I L) peers
        × Distinct qs
  returned-nearest {phase = phase} {s = s} {qs = qs} {rs = rs} peers r st =
      let v = Reached-Inv r in
      let all = rs ++ heard phase s in
      let e : peers ≡ nearest_k all =
        subst (Keeps (qs ++ asked phase s) all) st (step-Keeps phase s qs rs v) in
      (
        e,
        rw e (unfold nearest in omega (arith, length-take L.const_k (sort_by (rank I L) all))),
        rw e (
            unfold nearest in
            take-IsSorted (rank I L) L.const_k (sort_by (rank I L) all)
              (sort_by-IsSorted (rank I L) all)),
        v.once,
      )
