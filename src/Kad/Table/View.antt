-- ===== src/Kad/Table/View.antt =====
-- The table as a function from distance indices to buckets, and how the two kinds of write change
-- that function.
use xstack.Base.{
  ℕ, ◌<◌, ◌≡◌, ◌≢◌, refl, ap, sym, List, [], ◌∷◌, ◌++◌, Option, none, some, length, get_elem?, set,
  arith, ite, ◌∙◌, length-set, if_pos, if_neg, length-append, get_elem?-set_self, get_elem?-set_ne,
  get_elem?-append_last, get_elem?-append_left, ℕ_discrete,
}

module _ {ℓ} {A : Type ℓ} where
  abbrev pub or_nil : Option (List A) → List A
  or_nil none = []
  or_nil (some b) = b

  abbrev pub bucket_at : List (List A) → Option (Option ℕ) → List A
  bucket_at bs none = []
  bucket_at bs (some none) = []
  bucket_at bs (some (some j)) = or_nil (get_elem? bs j)

  -- The bucket of an index: empty where there is none.
  unfoldable pub view : List (List A) → List (Option ℕ) → ℕ → List A
  view bs slots i = bucket_at bs (get_elem? slots i)

  -- Every slot that is set leads to a bucket of its own.
  pub record IsIndexed (bs : List (List A)) (slots : List (Option ℕ)) : Type ℓ where
    pub reaches : (i j : ℕ) → get_elem? slots i ≡ some (some j) → j < length bs
    pub own :
        (i i' j : ℕ)
        → get_elem? slots i ≡ some (some j)
        → get_elem? slots i' ≡ some (some j)
        → i ≡ i'

  view-eq :
      (bs : List (List A)) (slots : List (Option ℕ)) (i : ℕ)
      → view bs slots i ≡ bucket_at bs (get_elem? slots i)
  unfolding view
  view-eq bs slots i = refl

  -- A write to the bucket of one index.
  pub view-set :
      (bs : List (List A)) (slots : List (Option ℕ)) (i j : ℕ) (b : List A)
      → IsIndexed bs slots
      → get_elem? slots i ≡ some (some j)
      → (i' : ℕ) → view (set bs j b) slots i' ≡ ite (ℕ_discrete i i') b (view bs slots i')
  unfolding view
  view-set bs slots i j b x e i' = elim (ℕ_discrete i i') [
    | yes same ↦ rw (if_pos _ same, ← same, e, get_elem?-set_self bs j b (x.reaches i j e)) refl
    | no other ↦ rw (if_neg _ other) (unmoved other (get_elem? slots i') refl)
  ]
    where
      unmoved :
          i ≢ i'
          → (slot : Option (Option ℕ)) → get_elem? slots i' ≡ slot
          → bucket_at (set bs j b) (get_elem? slots i') ≡ bucket_at bs (get_elem? slots i')
      unmoved other none e' = rw e'
      unmoved other (some none) e' = rw e'
      unmoved other (some (some j')) e' = rw e' (
          ap or_nil (
            get_elem?-set_ne bs j j' b
              (λ s. other (x.own i i' j e (e' ∙ ap some (ap some (sym s)))))))

  -- A new bucket, for an index that had none.
  pub view-push :
      (bs : List (List A)) (slots : List (Option ℕ)) (i : ℕ) (b : List A)
      → IsIndexed bs slots
      → i < length slots
      → (i' : ℕ)
      → view (bs ++ b ∷ []) (set slots i (some (length bs))) i'
        ≡ ite (ℕ_discrete i i') b (view bs slots i')
  unfolding view
  view-push bs slots i b x h i' = elim (ℕ_discrete i i') [
    | yes same ↦
        rw
          (
            if_pos _ same,
            ← same,
            get_elem?-set_self slots i (some (length bs)) h,
            get_elem?-append_last bs b,
          )
          refl
    | no other ↦
        rw (if_neg _ other, get_elem?-set_ne slots i i' (some (length bs)) other)
          (unmoved (get_elem? slots i') refl)
  ]
    where
      unmoved :
          (slot : Option (Option ℕ))
          → get_elem? slots i' ≡ slot
          → bucket_at (bs ++ b ∷ []) (get_elem? slots i') ≡ bucket_at bs (get_elem? slots i')
      unmoved none e' = rw e'
      unmoved (some none) e' = rw e'
      unmoved (some (some j')) e' =
          rw e' (ap or_nil (get_elem?-append_left bs (b ∷ []) j' (x.reaches i' j' e')))

  pub set-IsIndexed :
      (bs : List (List A)) (slots : List (Option ℕ)) (j : ℕ) (b : List A)
      → IsIndexed bs slots
      → IsIndexed (set bs j b) slots
  set-IsIndexed bs slots j b x = record {
    reaches = λ i j' e. omega (arith, length-set bs j b, x.reaches i j' e);
    own = x.own;
  }

  pub push-IsIndexed :
      (bs : List (List A)) (slots : List (Option ℕ)) (i : ℕ) (b : List A)
      → IsIndexed bs slots
      → i < length slots
      → IsIndexed (bs ++ b ∷ []) (set slots i (some (length bs)))
  push-IsIndexed bs slots i b x h = record {
    reaches = λ i' j e. reach i' j e (ℕ_discrete i i');
    own = λ i' i'' j e e'. once i' i'' j e e' (ℕ_discrete i i') (ℕ_discrete i i'');
  }
    where
      written : get_elem? (set slots i (some (length bs))) i ≡ some (some (length bs))
      written = get_elem?-set_self slots i (some (length bs)) h

      kept : (i' : ℕ) → i ≢ i' → get_elem? (set slots i (some (length bs))) i' ≡ get_elem? slots i'
      kept i' other = get_elem?-set_ne slots i i' (some (length bs)) other

      fresh :
          (i' j : ℕ)
          → get_elem? (set slots i (some (length bs))) i' ≡ some (some j)
          → i ≡ i'
          → length bs ≡ j
      fresh i' j e same =
          let e' : some (some (length bs)) ≡ some (some j) =
            sym written ∙ ap (get_elem? (set slots i (some (length bs)))) same ∙ e in
          cc e'

      old :
          (i' j : ℕ)
          → get_elem? (set slots i (some (length bs))) i' ≡ some (some j)
          → i ≢ i'
          → j < length bs
      old i' j e other = x.reaches i' j (sym (kept i' other) ∙ e)

      reach :
          (i' j : ℕ)
          → get_elem? (set slots i (some (length bs))) i' ≡ some (some j)
          → Dec (i ≡ i')
          → j < length (bs ++ b ∷ [])
      reach i' j e (yes same) = omega (arith, length-append bs (b ∷ []), fresh i' j e same)
      reach i' j e (no other) = omega (arith, length-append bs (b ∷ []), old i' j e other)

      once :
          (i' i'' j : ℕ)
          → get_elem? (set slots i (some (length bs))) i' ≡ some (some j)
          → get_elem? (set slots i (some (length bs))) i'' ≡ some (some j)
          → Dec (i ≡ i')
          → Dec (i ≡ i'')
          → i' ≡ i''
      once i' i'' j e e' (yes same) (yes same') = sym same ∙ same'
      once i' i'' j e e' (yes same) (no other) =
          absurd (omega (arith, fresh i' j e same, old i'' j e' other))
      once i' i'' j e e' (no other) (yes same) =
          absurd (omega (arith, fresh i'' j e' same, old i' j e other))
      once i' i'' j e e' (no other) (no other') =
          x.own i' i'' j (sym (kept i' other) ∙ e) (sym (kept i'' other') ∙ e')
