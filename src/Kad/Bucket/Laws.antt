-- ===== src/Kad/Bucket/Laws.antt =====
-- What `KBucket::try_insert` does on each branch, and that it keeps a bucket in form.
use xstack.Base.{
  ℕ, zero, suc, Option, Bool, ◌+◌, ◌≤◌, ◌<◌, ◌≡◌, ◌≢◌, refl, ite, List, [], ◌∷◌, ◌++◌, none, some,
  true, false, length, length-append, contains, All, All-append, Distinct, Distinct-append_last,
  arith, inl, inr, Bool-cases, if◌then◌else◌, ◌==◌, ltb, subst, ◌∙◌,
}
use xstack.Kad.Bucket.{remove_at, pop_front, find_index, try_insert}

module _ {ℓ} {A : Type ℓ} where
  pub All-remove_at : (P : A → Type ℓ) (q : List A) (i : ℕ) → All P q → All P (remove_at q i)
  unfolding remove_at
  All-remove_at P [] i a = tt
  All-remove_at P (x ∷ xs) zero a = a.1
  All-remove_at P (x ∷ xs) (suc i) a = (a.0, All-remove_at P xs i a.1)

  All-pop_front : (P : A → Type ℓ) (q : List A) → All P q → All P (pop_front q).0
  unfolding pop_front
  All-pop_front P [] a = tt
  All-pop_front P (x ∷ xs) a = a.1

module _ {ℓ} {PeerId : Type ℓ} (dec : Discrete PeerId) where
  -- The list without a peer.
  unfoldable pub without : PeerId → List PeerId → List PeerId
  without p [] = []
  without p (x ∷ xs) = ite (dec x p) (without p xs) (x ∷ without p xs)

  -- A bucket in form: at most `k` peers, none of them twice.
  pub record IsBucket (k : ℕ) (q : List PeerId) : Type ℓ where
    pub bounded : length q ≤ k
    pub distinct : Distinct q

  absent_All : (p : PeerId) (q : List PeerId) → contains dec q p ≡ false → All (λ x. x ≢ p) q
  absent_All p [] h = tt
  absent_All p (x ∷ xs) h = elim (dec x p) [
    | yes e ↦ absurd (ground arith)
    | no ne ↦ (ne, absent_All p xs (ground arith))
  ]

  All-without : (p : PeerId) (xs : List PeerId) → All (λ y. p ≢ y) xs → without p xs ≡ xs
  unfolding without
  All-without p [] a = refl
  All-without p (x ∷ xs) a = ground (arith, All-without p xs a.1)

  find_index-absent :
      (i : ℕ) (p : PeerId) (q : List PeerId)
      → contains dec q p ≡ false
      → find_index dec i p q ≡ none
  unfolding find_index
  find_index-absent i p [] h = refl
  find_index-absent i p (x ∷ xs) h = ground (arith, find_index-absent (suc i) p xs)

  find_index-present :
      (i : ℕ) (p : PeerId) (q : List PeerId)
      → contains dec q p ≡ true
      → Distinct q
      → (j : ℕ) × (find_index dec i p q ≡ some (i + j))
        × (remove_at q j ≡ without p q)
        × (length q ≡ suc (length (remove_at q j)))
  unfolding find_index remove_at without
  find_index-present i p [] h d = absurd (cc)
  find_index-present i p (x ∷ xs) h d = elim (dec x p) [
    | yes e ↦ (0, ground arith, ground (arith, All-without p xs), refl)
    | no ne ↦
        let (j, found, removed, shorter) = find_index-present (suc i) p xs (ground arith) d.1 in
        (suc j, ground arith, ground arith, omega arith)
  ]

  All-without_of_All :
      (P : PeerId → Type ℓ) (p : PeerId) (q : List PeerId) → All P q → All P (without p q)
  unfolding without
  All-without_of_All P p [] a = tt
  All-without_of_All P p (x ∷ xs) a = ground (arith, All-without_of_All P p xs a.1)

  All-without_ne : (p : PeerId) (q : List PeerId) → All (λ x. x ≢ p) (without p q)
  unfolding without
  All-without_ne p [] = tt
  All-without_ne p (x ∷ xs) = ground (arith, All-without_ne p xs)

  without-Distinct : (p : PeerId) (q : List PeerId) → Distinct q → Distinct (without p q)
  unfolding without
  without-Distinct p [] d = tt
  without-Distinct p (x ∷ xs) d =
      ground (arith, without-Distinct p xs d.1, All-without_of_All (λ y. x ≢ y) p xs d.0)

  pub try_insert_present :
      (k : ℕ) (q : List PeerId) (p : PeerId)
      → contains dec q p ≡ true
      → Distinct q
      → (try_insert dec k q p ≡ (without p q ++ p ∷ [], some p))
        × (length q ≡ suc (length (without p q)))
  unfolding try_insert
  try_insert_present k q p h d =
      let (j, found, removed, shorter) = find_index-present 0 p q h d in
      (ground arith, ground arith)

  pub try_insert_absent :
      (k : ℕ) (q : List PeerId) (p : PeerId)
      → contains dec q p ≡ false
      → try_insert dec k q p ≡ (if length q == k then pop_front q else (q ++ p ∷ [], none))
  unfolding try_insert
  try_insert_absent k q p h = ground (arith, find_index-absent 0 p q h)

  -- All branches of `try_insert` on a bucket in form. A peer that is there is moved to the tail and
  -- returned. A new peer is added at the tail while there is room, and nothing is returned. Into a
  -- full bucket it is not inserted: the least recently seen peer, the front, is taken out and
  -- returned in its place.
  pub try_insert_cases :
      (k : ℕ) (q : List PeerId) (p : PeerId)
      → IsBucket k q
      → try_insert dec k q p ≡ (
          if contains dec q p
          then (without p q ++ p ∷ [], some p)
          else if ltb (length q) k
          then (q ++ p ∷ [], none)
          else pop_front q)
  try_insert_cases k q p b = elim (Bool-cases (contains dec q p)) [
    | inl present ↦ rw present ((try_insert_present k q p present b.distinct).0)
    | inr absent ↦ rw absent (try_insert_absent k q p absent ∙ by_room)
  ]
    where
      by_room :
          (if length q == k then pop_front q else (q ++ p ∷ [], none))
          ≡ (if ltb (length q) k then (q ++ p ∷ [], none) else pop_front q)
      by_room = ground (arith, b.bounded)

  absent-IsBucket :
      (k : ℕ) (q : List PeerId) (p : PeerId)
      → 0 < k
      → contains dec q p ≡ false
      → IsBucket k q
      → IsBucket k (if length q == k then pop_front q else (q ++ p ∷ [], none)).0
  unfolding pop_front
  absent-IsBucket k [] p pos h b = ground arith
  absent-IsBucket k (x ∷ xs) p pos h b = ground (
    arith,
    length-append (x ∷ xs) (p ∷ []),
    Distinct-append_last (x ∷ xs) p b.distinct (absent_All p (x ∷ xs) h),
  )

  -- A bucket in form stays in form, whatever peer is inserted.
  pub try_insert-IsBucket :
      (k : ℕ) (q : List PeerId) (p : PeerId)
      → 0 < k
      → IsBucket k q
      → IsBucket k (try_insert dec k q p).0
  try_insert-IsBucket k q p pos b = elim (Bool-cases (contains dec q p)) [
    | inl present ↦
        let (e, shorter) = try_insert_present k q p present b.distinct in
        rw e (record {
          bounded = omega (arith, length-append (without p q) (p ∷ []), b.bounded);
          distinct =
              Distinct-append_last (without p q) p (without-Distinct p q b.distinct)
                (All-without_ne p q);
        })
    | inr absent ↦ rw (try_insert_absent k q p absent) (absent-IsBucket k q p pos absent b)
  ]

  -- What holds of the peers of a bucket and of the new one holds of the peers afterwards.
  pub try_insert-All :
      (P : PeerId → Type ℓ) (k : ℕ) (q : List PeerId) (p : PeerId)
      → All P q
      → P p
      → All P (try_insert dec k q p).0
  unfolding try_insert
  try_insert-All P k q p a h = go (find_index dec 0 p q) refl
    where
      go : (o : Option ℕ) → find_index dec 0 p q ≡ o → All P (try_insert dec k q p).0
      go (some i) e =
          rw (e, try_insert) (All-append P (remove_at q i) (p ∷ []) (All-remove_at P q i a) (h, tt))
      go none e = rw (e, try_insert) (rest (length q == k))
        where
          rest : (b : Bool) → All P (if b then pop_front q else (q ++ p ∷ [], none)).0
          rest true = All-pop_front P q a
          rest false = All-append P q (p ∷ []) a (h, tt)

  -- Into an empty bucket the peer is added.
  pub try_insert-nil : (k : ℕ) (p : PeerId) → 0 < k → try_insert dec k [] p ≡ (p ∷ [], none)
  unfolding try_insert find_index
  try_insert-nil k p pos = ground arith

  -- How the size of a bucket changes, by what is returned.
  pub data Resized (q : List PeerId) (p : PeerId) (r : List PeerId × Option PeerId) : Type ℓ where
    grown : r.1 ≡ none → length r.0 ≡ length q + 1 → Resized q p r
    moved : r.1 ≡ some p → length r.0 ≡ length q → Resized q p r
    popped : (lru : PeerId) → r.1 ≡ some lru → lru ≢ p → length r.0 + 1 ≡ length q → Resized q p r

  full-Resized :
      (k : ℕ) (q : List PeerId) (p : PeerId)
      → 0 < k
      → length q ≡ k
      → contains dec q p ≡ false
      → Resized q p (pop_front q)
  unfolding pop_front
  full-Resized k [] p pos full h = absurd (omega arith)
  full-Resized k (x ∷ xs) p pos full h = popped x refl (λ e. ground arith) (omega arith)

  pub try_insert-Resized :
      (k : ℕ) (q : List PeerId) (p : PeerId)
      → 0 < k
      → IsBucket k q
      → Resized q p (try_insert dec k q p)
  try_insert-Resized k q p pos b = elim (Bool-cases (contains dec q p)) [
    | inl present ↦
        let (e, shorter) = try_insert_present k q p present b.distinct in
        rw e (moved refl (omega (arith, length-append (without p q) (p ∷ []))))
    | inr absent ↦ rw (try_insert_absent k q p absent) (elim (Bool-cases (length q == k)) [
      | inl full ↦ rw full (full-Resized k q p pos (ground arith) absent)
      | inr room ↦ rw room (grown refl (omega (arith, length-append q (p ∷ []))))
    ])
  ]

  -- What is returned is the peer itself or one of the bucket.
  pub try_insert-returned :
      (P : PeerId → Type ℓ) (k : ℕ) (q : List PeerId) (p lru : PeerId)
      → All P q
      → P p
      → (try_insert dec k q p).1 ≡ some lru
      → P lru
  unfolding try_insert
  try_insert-returned P k q p lru a h = go (find_index dec 0 p q) refl
    where
      front :
          (b : Bool) (q : List PeerId)
          → All P q
          → (if b then pop_front q else (q ++ p ∷ [], none)).1 ≡ some lru
          → P lru
      front true [] a e = absurd (unfold pop_front in ground arith)
      front true (x ∷ xs) a e = subst P (unfold pop_front in ground arith) a.0
      front false q a e = absurd (ground arith)

      go : (o : Option ℕ) → find_index dec 0 p q ≡ o → (try_insert dec k q p).1 ≡ some lru → P lru
      go (some i) e r = subst P (ground (arith, rw (e, try_insert) at r)) h
      go none e r = front (length q == k) q a (rw (e, try_insert) at r)
