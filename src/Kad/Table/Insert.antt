-- ===== src/Kad/Table/Insert.antt =====
-- `RawKBucketTable::try_insert` refines the insertion into one bucket of a family indexed by distance.
use xstack.Base.{
  ℕ, zero, suc, ◌-◌, ◌^◌, ◌<◌, ◌≡◌, ◌≢◌, ◌⊎◌, refl, sym, ap, ◌∙◌, inl, inr, ite, List, [], ◌∷◌,
  ◌++◌, Option, none, some, length, get_elem?, set, All, arith, ℕ_discrete, length-append,
  length-set, length-replicate, replicate, get_elem?-some, subst,
}
use xstack.Base.Outcome.{done}
use xstack.Kad.Bucket
use xstack.Kad.Bucket.Laws.{IsBucket, try_insert-IsBucket, try_insert-All, try_insert-nil}
use xstack.Kad.Key
use xstack.Kad.Key.Laws.{k_index_cases}
use xstack.Kad.Key.Metric.{distance-lt, distance-eq-zero_iff}
use xstack.Kad.Table.{Identity, Table, empty, index, bucket, peer_index, try_insert}
use xstack.Kad.Table.View.{view, IsIndexed, view-set, view-push, set-IsIndexed, push-IsIndexed}

index-lt {ℓ} :
    {A : Type ℓ} (xs : List A) (i : ℕ)
    → i < length xs
    → (a : A) × (index xs i ≡ done a) × (get_elem? xs i ≡ some a)
index-lt xs i h = let (a, e) = get_elem?-some xs i h in (a, ground arith, e)

-- The peers whose distance index is `i`.
unfoldable pub peers_at : {PeerId : Type 0} → Table PeerId → ℕ → List PeerId
peers_at t i = view t.k_buckets t.k_index i

module _ (I : Identity) (k : ℕ) where
  open I use {PeerId, discrete, key_of, key_of-lt}

  -- A table in form: a slot for each of the 256 distance indices, the slots that are set lead to
  -- different buckets, each bucket is in form and holds peers of its own distance index.
  pub record IsTable (t : Table PeerId) : Type 0 where
    pub local_fits : t.local_key < 2 ^ Key.key_bits
    pub sized : length t.k_index ≡ Key.key_bits
    pub indexed : IsIndexed t.k_buckets t.k_index
    pub buckets : (i : ℕ) → IsBucket discrete k (peers_at t i)
    pub placed : (i : ℕ) → All (λ p. peer_index I k t.local_key p ≡ some i) (peers_at t i)

  -- A read of a bucket does not panic, and gives the peers of the index, if any.
  pub bucket-peers_at :
      (t : Table PeerId) (i : ℕ)
      → IsTable t
      → i < Key.key_bits
      → ((bucket t i ≡ done none) × (peers_at t i ≡ [])) ⊎ (bucket t i ≡ done (some (peers_at t i)))
  unfolding bucket peers_at view
  bucket-peers_at t i v h = go (get_elem? t.k_index i) refl
    where
      go :
          (slot : Option (Option ℕ))
          → get_elem? t.k_index i ≡ slot
          → ((bucket t i ≡ done none) × (peers_at t i ≡ []))
            ⊎ (bucket t i ≡ done (some (peers_at t i)))
      go none e = absurd (let (a, e', e'') = index-lt t.k_index i (omega (arith, v.sized)) in cc)
      go (some none) e = inl (rw (e, bucket) refl, rw e refl)
      go (some (some j)) e =
          let (b, _, found) = index-lt t.k_buckets j (v.indexed.reaches i j e) in
          inr (rw (e, bucket, found) refl)

  pub no_slots : (n i : ℕ) → view {A = PeerId} [] (replicate n none) i ≡ []
  unfolding view
  no_slots zero i = refl
  no_slots (suc n) zero = refl
  no_slots (suc n) (suc i) = no_slots n i

  no_slots_set : (n i j : ℕ) → ¬ (get_elem? {A = Option ℕ} (replicate n none) i ≡ some (some j))
  no_slots_set zero i j e = cc
  no_slots_set (suc n) zero j e = cc
  no_slots_set (suc n) (suc i) j e = no_slots_set n i j e

  -- An empty table is in form.
  pub empty-IsTable : (local_key : ℕ) → local_key < 2 ^ Key.key_bits → IsTable (empty local_key)
  unfolding empty peers_at
  empty-IsTable local_key h = record {
    local_fits = h;
    sized = length-replicate {A = Option ℕ} Key.key_bits none;
    indexed = record {
      reaches = λ i j e. absurd (no_slots_set Key.key_bits i j e);
      own = λ i i' j e e'. absurd (no_slots_set Key.key_bits i j e);
    };
    buckets = λ i. rw (no_slots Key.key_bits i) (record { bounded = omega arith; distinct = tt });
    placed = λ i. rw (no_slots Key.key_bits i) tt;
  }

  module _ (t : Table PeerId) (p : PeerId) (pos : 0 < k) (v : IsTable t) where
    -- The bucket of the peer's index after the insertion, and the peer that it returns.
    abbrev pub after_insert : ℕ → List PeerId × Option PeerId
    after_insert i = Bucket.try_insert discrete k (peers_at t i) p

    -- What a write has to do for the table to stay in form.
    written-IsTable :
        (t' : Table PeerId) (i : ℕ)
        → peer_index I k t.local_key p ≡ some i
        → t'.local_key ≡ t.local_key
        → length t'.k_index ≡ Key.key_bits
        → IsIndexed t'.k_buckets t'.k_index
        → ((i' : ℕ) → peers_at t' i' ≡ ite (ℕ_discrete i i') (after_insert i).0 (peers_at t i'))
        → IsTable t'
    written-IsTable t' i e same sized indexed family = record {
      local_fits = rw same v.local_fits;
      sized = sized;
      indexed = indexed;
      buckets = λ i'. rw (family i') (bucket_ok i' (ℕ_discrete i i'));
      placed = λ i'. rw (family i', same) (placed_ok i' (ℕ_discrete i i'));
    }
      where
        bucket_ok :
            (i' : ℕ) (d : Dec (i ≡ i'))
            → IsBucket discrete k (ite d (after_insert i).0 (peers_at t i'))
        bucket_ok i' (yes _) = try_insert-IsBucket discrete k (peers_at t i) p pos (v.buckets i)
        bucket_ok i' (no _) = v.buckets i'

        placed_ok :
            (i' : ℕ) (d : Dec (i ≡ i'))
            → All
                (λ q. peer_index I k t.local_key q ≡ some i')
                (ite d (after_insert i).0 (peers_at t i'))
        placed_ok i' (yes here) =
            subst (λ j. All (λ q. peer_index I k t.local_key q ≡ some j) (after_insert i).0) here
              (try_insert-All discrete (λ q. peer_index I k t.local_key q ≡ some i) k (peers_at t i)
                p (v.placed i) e)
        placed_ok i' (no _) = v.placed i'

    -- What `try_insert` returns, with the state afterwards.
    pub record Inserted (i : ℕ) : Type 0 where
      pub table : Table PeerId
      pub returns : try_insert I k t p ≡ done (table, (after_insert i).1)
      pub family :
          (i' : ℕ) → peers_at table i' ≡ ite (ℕ_discrete i i') (after_insert i).0 (peers_at t i')
      pub local_kept : table.local_key ≡ t.local_key
      pub valid : IsTable table

    pub peers_at-here : (i : ℕ) (x : Inserted i) → peers_at x.table i ≡ (after_insert i).0
    peers_at-here i x = ground (arith, x.family i)

    pub peers_at-there :
        (i : ℕ) (x : Inserted i) (i' : ℕ) → i ≢ i' → peers_at x.table i' ≡ peers_at t i'
    peers_at-there i x i' other = ground (arith, x.family i')

    -- Into the bucket that the slot names.
    into_bucket :
        (i j : ℕ)
        → peer_index I k t.local_key p ≡ some i
        → get_elem? t.k_index i ≡ some (some j)
        → Inserted i
    unfolding try_insert peers_at view
    into_bucket i j e found =
        let (b, _, at_j) = index-lt t.k_buckets j (v.indexed.reaches i j found) in
        let here : get_elem? t.k_buckets j ≡ some (peers_at t i) =
          at_j ∙ ap some (sym (rw (view, found, at_j) refl)) in
        let b' = (after_insert i).0 in
        let t' = record t { k_buckets = set t.k_buckets j b' } in
        let family = view-set t.k_buckets t.k_index i j b' v.indexed found in
        record {
          table = t';
          returns = rw (e, found, here) refl;
          family = family;
          local_kept = refl;
          valid =
              written-IsTable t' i e refl v.sized
                (set-IsIndexed t.k_buckets t.k_index j b' v.indexed) family;
        }

    -- Into a new bucket, for an index that has none yet.
    into_new_bucket :
        (i : ℕ)
        → peer_index I k t.local_key p ≡ some i
        → i < Key.key_bits
        → get_elem? t.k_index i ≡ some none
        → Inserted i
    unfolding try_insert peers_at view
    into_new_bucket i e h found =
        let none_yet : peers_at t i ≡ [] = rw (view, found) refl in
        let alone : after_insert i ≡ (p ∷ [], none) =
          ap (λ q. Bucket.try_insert discrete k q p) none_yet ∙ try_insert-nil discrete k p pos in
        let nothing : none ≡ (after_insert i).1 =
          sym (ap (λ (r : List PeerId × Option PeerId). r.1) alone) in
        let pushed = t.k_buckets ++ (p ∷ []) ∷ [] in
        let last : length pushed - 1 ≡ length t.k_buckets =
          omega (arith, length-append t.k_buckets ((p ∷ []) ∷ [])) in
        let slots = set t.k_index i (some (length t.k_buckets)) in
        let t' = record t { k_buckets = pushed; k_index = slots } in
        let answer : try_insert I k t p ≡ done (t', none) = rw (e, found, last) refl in
        let in_range : i < length t.k_index = omega (arith, v.sized) in
        let family : ((i' : ℕ)
            → peers_at t' i' ≡ ite (ℕ_discrete i i') (after_insert i).0 (peers_at t i')) =
          subst (λ b. (i' : ℕ) → peers_at t' i' ≡ ite (ℕ_discrete i i') b (peers_at t i'))
            (sym (ap (λ (r : List PeerId × Option PeerId). r.0) alone))
            (view-push t.k_buckets t.k_index i (p ∷ []) v.indexed in_range) in
        record {
          table = t';
          returns = answer ∙ ap (λ r. done (t', r)) nothing;
          family = family;
          local_kept = refl;
          valid =
              written-IsTable t' i e refl
                (length-set t.k_index i (some (length t.k_buckets)) ∙ v.sized)
                (push-IsIndexed t.k_buckets t.k_index i (p ∷ []) v.indexed in_range) family;
        }

    -- For every peer but the local one, `try_insert` does not panic. It does to the bucket of the
    -- peer's distance index what `KBucket::try_insert` does to a bucket (an absent bucket counts as
    -- an empty one), returns what that returns, leaves every other bucket as it was, and keeps the
    -- table in form.
    pub try_insert-Inserted :
        key_of p ≢ t.local_key
        → (i : ℕ) × (peer_index I k t.local_key p ≡ some i) × (i < Key.key_bits) × Inserted i
    unfolding peer_index
    try_insert-Inserted other =
        elim (k_index_cases (Key.distance (key_of p) t.local_key)
          (distance-lt (key_of p) t.local_key (key_of-lt p) v.local_fits)) [
            | inl (zero_distance, _) ↦
                absurd (other ((distance-eq-zero_iff (key_of p) t.local_key).0 zero_distance))
            | inr (i, e, h, _, _) ↦ (i, e, h, at_index i e h)
          ]
      where
        at_index : (i : ℕ) → peer_index I k t.local_key p ≡ some i → i < Key.key_bits → Inserted i
        at_index i e h =
            let (slot, _, found) = index-lt t.k_index i (omega (arith, v.sized)) in go slot found
          where
            go : (slot : Option ℕ) → get_elem? t.k_index i ≡ some slot → Inserted i
            go (some j) found = into_bucket i j e found
            go none found = into_new_bucket i e h found
