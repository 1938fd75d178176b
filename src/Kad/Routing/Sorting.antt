-- ===== src/Kad/Routing/Sorting.antt =====
-- The stable sort by a rank, and the first `k` of a sorted list kept up to date.
use native.Mathlib.Nat.{le_trans}
use xstack.Base.{
  ℕ, zero, suc, ◌≤◌, ◌≡◌, refl, sym, ap, ◌∙◌, List, [], ◌∷◌, ◌++◌, length, take, All, All-map,
  All-take, take-take, true, arith, leb, if◌then◌else◌, Bool-cases, inl, inr,
}
use xstack.Kad.Routing.{insert_sorted, sort_by}

module _ {ℓ} {A : Type ℓ} (rank : A → ℕ) where
  -- Ascending by rank.
  abbrev pub IsSorted : List A → Type 0
  IsSorted [] = Unit
  IsSorted (x ∷ xs) = All (λ y. rank x ≤ rank y) xs × IsSorted xs

  All-insert_sorted :
      (P : A → Type 0) (x : A) (xs : List A) → P x → All P xs → All P (insert_sorted rank x xs)
  unfolding insert_sorted
  All-insert_sorted P x [] h a = (h, tt)
  All-insert_sorted P x (y ∷ ys) h a = ground (arith, All-insert_sorted P x ys h a.1)

  insert_sorted-IsSorted : (x : A) (xs : List A) → IsSorted xs → IsSorted (insert_sorted rank x xs)
  unfolding insert_sorted
  insert_sorted-IsSorted x [] s = (tt, tt)
  insert_sorted-IsSorted x (y ∷ ys) s = elim (Bool-cases (leb (rank x) (rank y))) [
    | inl low ↦ rw low ((le_of_leb low, All-map _ _ (λ z h. le_trans (le_of_leb low) h) ys s.0), s)
    | inr high ↦ rw high (
      All-insert_sorted (λ z. rank y ≤ rank z) x ys (ground arith) s.0,
      insert_sorted-IsSorted x ys s.1,
    )
  ]
    where
      le_of_leb : leb (rank x) (rank y) ≡ true → rank x ≤ rank y
      le_of_leb e = ground arith

  pub sort_by-IsSorted : (xs : List A) → IsSorted (sort_by rank xs)
  unfolding sort_by
  sort_by-IsSorted [] = tt
  sort_by-IsSorted (x ∷ xs) = insert_sorted-IsSorted x (sort_by rank xs) (sort_by-IsSorted xs)

  length-insert_sorted : (x : A) (xs : List A) → length (insert_sorted rank x xs) ≡ suc (length xs)
  unfolding insert_sorted
  length-insert_sorted x [] = refl
  length-insert_sorted x (y ∷ ys) = ground (arith, length-insert_sorted x ys)

  pub length-sort_by : (xs : List A) → length (sort_by rank xs) ≡ length xs
  unfolding sort_by
  length-sort_by [] = refl
  length-sort_by (x ∷ xs) =
      omega (arith, length-insert_sorted x (sort_by rank xs), length-sort_by xs)

  -- What the sort does with an element that is added at the end: it goes behind its equals.
  insert_after : A → List A → List A
  insert_after p [] = p ∷ []
  insert_after p (y ∷ ys) = if leb (rank y) (rank p) then y ∷ insert_after p ys else p ∷ y ∷ ys

  insert_comm :
      (x p : A) (ys : List A)
      → insert_sorted rank x (insert_after p ys) ≡ insert_after p (insert_sorted rank x ys)
  unfolding insert_sorted insert_after
  insert_comm x p [] = ground arith
  insert_comm x p (y ∷ ys) = ground (arith, insert_comm x p ys)

  sort_by-append_last :
      (xs : List A) (p : A) → sort_by rank (xs ++ p ∷ []) ≡ insert_after p (sort_by rank xs)
  unfolding sort_by insert_after insert_sorted
  sort_by-append_last [] p = refl
  sort_by-append_last (x ∷ xs) p =
      ap (insert_sorted rank x) (sort_by-append_last xs p) ∙ insert_comm x p (sort_by rank xs)

  insert_least :
      (x : A) (ys : List A) → All (λ y. rank x ≤ rank y) ys → insert_sorted rank x ys ≡ x ∷ ys
  unfolding insert_sorted
  insert_least x [] a = refl
  insert_least x (y ∷ ys) a = ground arith

  sort_by_sorted : (xs : List A) → IsSorted xs → sort_by rank xs ≡ xs
  unfolding sort_by
  sort_by_sorted [] s = refl
  sort_by_sorted (x ∷ xs) s =
      ap (insert_sorted rank x) (sort_by_sorted xs s.1) ∙ insert_least x xs s.0

  pub take-IsSorted : (k : ℕ) (xs : List A) → IsSorted xs → IsSorted (take k xs)
  take-IsSorted zero xs s = tt
  take-IsSorted (suc k) [] s = tt
  take-IsSorted (suc k) (x ∷ xs) s =
      (All-take (λ y. rank x ≤ rank y) k xs s.0, take-IsSorted k xs s.1)

  -- The first `k` of a list decide the first `k` after an insertion.
  take-cons-take : (k : ℕ) (y : A) (ys : List A) → take k (y ∷ take k ys) ≡ take k (y ∷ ys)
  take-cons-take zero y ys = refl
  take-cons-take (suc k) y ys = ap (◌∷◌ y) (take-take k (suc k) ys (omega arith))

  take-insert_after :
      (k : ℕ) (p : A) (xs : List A)
      → take k (insert_after p (take k xs)) ≡ take k (insert_after p xs)
  unfolding insert_after
  take-insert_after zero p xs = refl
  take-insert_after (suc k) p [] = refl
  take-insert_after (suc k) p (y ∷ ys) = elim (Bool-cases (leb (rank y) (rank p))) [
    | inl before ↦ rw before (ap (◌∷◌ y) (take-insert_after k p ys))
    | inr after ↦ rw after (ap (◌∷◌ p) (take-cons-take k y ys))
  ]

  -- The first `k` by rank.
  unfoldable pub nearest : ℕ → List A → List A
  nearest k xs = take k (sort_by rank xs)

  -- They can be kept up to date one element at a time.
  pub nearest-append_last :
      (k : ℕ) (xs : List A) (p : A)
      → take k (sort_by rank (nearest k xs ++ p ∷ [])) ≡ nearest k (xs ++ p ∷ [])
  unfolding nearest
  nearest-append_last k xs p =
      let sorted = take-IsSorted k (sort_by rank xs) (sort_by-IsSorted xs) in
      ap (take k) (
        sort_by-append_last (take k (sort_by rank xs)) p
        ∙ ap (insert_after p) (sort_by_sorted (take k (sort_by rank xs)) sorted))
      ∙ take-insert_after k p (sort_by rank xs)
      ∙ ap (take k) (sym (sort_by-append_last xs p))
