-- ===== src/Kad/Refresh/Count.antt =====
-- The counter of the table against the peers that the table holds.
use native.Mathlib.Nat.{one-le-pow}
use xstack.Base.{
  ℕ, zero, suc, ◌+◌, ◌*◌, ◌^◌, ◌≤◌, ◌<◌, ◌≡◌, ◌≢◌, refl, ap, ◌∙◌, List, Option, some, if_pos,
  if_neg, length, All, arith, ℕ_discrete,
}
use xstack.Base.Outcome.{done}
use xstack.Kad.Key
use xstack.Kad.Key.Laws.{k_index-eq-some_iff}
use xstack.Kad.Key.Metric.{distance-lt, distance-eq-zero_iff}
use xstack.Kad.Bucket
use xstack.Kad.Bucket.Laws.{Resized, grown, moved, popped, try_insert-Resized, try_insert-returned}
use xstack.Kad.Table.{Identity, Table, peer_index}
use xstack.Kad.Table.Insert.{
  IsTable, Inserted, peers_at, try_insert-Inserted, peers_at-here, peers_at-there,
}
use xstack.Kad.Refresh.{State, Ping, usize_mod, count, insert_prv}

-- The sum of `f` over the numbers below `n`.
unfoldable pub sum_below : ℕ → (ℕ → ℕ) → ℕ
sum_below zero f = 0
sum_below (suc n) f = sum_below n f + f n

sum_below-le : (n b : ℕ) (f : ℕ → ℕ) → ((i : ℕ) → f i ≤ b) → sum_below n f ≤ n * b
unfolding sum_below
sum_below-le zero b f h = omega arith
sum_below-le (suc n) b f h = grind (arith, sum_below-le n b f h, h n)

sum_below_cong :
    (n : ℕ) (f g : ℕ → ℕ) → ((i : ℕ) → i < n → f i ≡ g i) → sum_below n f ≡ sum_below n g
unfolding sum_below
sum_below_cong zero f g h = refl
sum_below_cong (suc n) f g h =
    omega (arith, sum_below_cong n f g (λ i p. h i (omega arith)), h n (omega arith))

-- Where two functions differ at one number only, so do the sums.
sum_below_update :
    (n i : ℕ) (f g : ℕ → ℕ)
    → i < n
    → ((j : ℕ) → i ≢ j → g j ≡ f j)
    → sum_below n g + f i ≡ sum_below n f + g i
unfolding sum_below
sum_below_update zero i f g h same = absurd (omega arith)
sum_below_update (suc n) i f g h same = elim (ℕ_discrete i n) [
  | yes e ↦ omega (arith, sum_below_cong n g f (λ j p. same j (omega arith)), ap f e, ap g e)
  | no ne ↦ omega (arith, sum_below_update n i f g (omega arith) same, same n ne)
]

abbrev size_at : {PeerId : Type 0} → Table PeerId → ℕ → ℕ
size_at t i = length (peers_at t i)

-- How many peers the table holds.
unfoldable pub total : {PeerId : Type 0} → Table PeerId → ℕ
total t = sum_below Key.key_bits (size_at t)

module _ (I : Identity) (k : ℕ) (pos : 0 < k) (fits : Key.key_bits * k < usize_mod) where
  open I use {PeerId, discrete, key_of, key_of-lt}

  -- The counter agrees with the table, and no task pings the local peer or would insert it.
  pub record IsCounted (s : State PeerId) : Type 0 where
    pub valid : IsTable I k s.table
    pub counted : s.len ≡ total s.table
    pub foreign :
        All
          (λ (g : Ping PeerId).
            (key_of g.lru ≢ s.table.local_key) × (key_of g.peer_id ≢ s.table.local_key))
          s.pings

  total-lt : (t : Table PeerId) → IsTable I k t → total t < usize_mod
  unfolding total
  total-lt t v =
      omega (arith, sum_below-le Key.key_bits k (size_at t) (λ i. (v.buckets i).bounded), fits)

  total-Inserted :
      (t : Table PeerId) (p : PeerId) (v : IsTable I k t) (i : ℕ)
      → i < Key.key_bits
      → (x : Inserted I k t p pos v i)
      → total x.table + length (peers_at t i)
        ≡ total t + length (Bucket.try_insert discrete k (peers_at t i) p).0
  unfolding total
  total-Inserted t p v i h x =
      sum_below_update Key.key_bits i (size_at t) (size_at x.table) h
        (λ j other. ap length (peers_at-there I k t p pos v i x j other))
      ∙ ap (λ (n : ℕ). sum_below Key.key_bits (size_at t) + n)
          (ap length (peers_at-here I k t p pos v i x))

  count-Resized :
      (len n n' : ℕ) (q : List PeerId) (p : PeerId) (r : List PeerId × Option PeerId)
      → len ≡ n
      → n < usize_mod
      → n' < usize_mod
      → n' + length q ≡ n + length r.0
      → Resized discrete q p r
      → count I k len p r.1 ≡ n'
  unfolding count
  count-Resized len n n' q p r e m m' balance (grown out size) = rw out (omega arith)
  count-Resized len n n' q p r e m m' balance (moved out size) =
      rw (out, if_pos (discrete p p) refl) (omega arith)
  count-Resized len n n' q p r e m m' balance (popped lru out other size) =
      rw (out, if_neg (discrete lru p) other) (omega arith)

  index_foreign :
      (local_key i : ℕ) (p : PeerId)
      → local_key < 2 ^ Key.key_bits
      → peer_index I k local_key p ≡ some i
      → key_of p ≢ local_key
  unfolding peer_index
  index_foreign local_key i p h e same =
      let d = Key.distance (key_of p) local_key in
      let zero_distance : d ≡ 0 = (distance-eq-zero_iff (key_of p) local_key).1 same in
      let low = (k_index-eq-some_iff d i (distance-lt (key_of p) local_key (key_of-lt p) h)).0 e in
      omega (arith, low.0, one-le-pow i 2)

  -- What `insert_prv` leaves behind.
  pub record Settled (s : State PeerId) (p : PeerId) : Type 0 where
    pub state : State PeerId
    pub popped : Option PeerId
    pub returns : insert_prv I k s p ≡ done (state, popped)
    pub counted : IsCounted state
    pub pings_kept : state.pings ≡ s.pings
    pub local_kept : state.table.local_key ≡ s.table.local_key
    pub foreign : (lru : PeerId) → popped ≡ some lru → key_of lru ≢ s.table.local_key

  -- The insertion of a peer other than the local one does not panic and keeps the counter right.
  pub insert_prv-Settled :
      (s : State PeerId) (p : PeerId) → IsCounted s → key_of p ≢ s.table.local_key → Settled s p
  unfolding insert_prv
  insert_prv-Settled s p c other =
      let (i, e, h, x) = try_insert-Inserted I k s.table p pos c.valid other in
      let r = Bucket.try_insert discrete k (peers_at s.table i) p in
      record {
        state = record s { table = x.table; len = count I k s.len p r.1 };
        popped = r.1;
        returns = rw x.returns refl;
        counted = record {
          valid = x.valid;
          counted =
              count-Resized s.len (total s.table) (total x.table) (peers_at s.table i) p r c.counted
                (total-lt s.table c.valid) (total-lt x.table x.valid)
                (total-Inserted s.table p c.valid i h x)
                (try_insert-Resized discrete k (peers_at s.table i) p pos (c.valid.buckets i));
          foreign = rw x.local_kept c.foreign;
        };
        pings_kept = refl;
        local_kept = x.local_kept;
        foreign = λ lru out. index_foreign s.table.local_key i lru c.valid.local_fits (
            try_insert-returned discrete (λ q. peer_index I k s.table.local_key q ≡ some i) k
              (peers_at s.table i) p lru (c.valid.placed i) e out);
      }
