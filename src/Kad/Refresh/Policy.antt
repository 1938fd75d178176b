-- ===== src/Kad/Refresh/Policy.antt =====
-- Whom a full bucket keeps once the ping of its least recently seen peer has ended.
use xstack.Base.{
  subst, lt→ltb, le→ltb, ℕ, ◌<◌, ◌≡◌, ◌≢◌, refl, ap, ◌∙◌, List, [], ◌∷◌, ◌++◌, Option, none, some,
  Bool, true, false, if◌then◌else◌, length, contains, All, Distinct, arith,
}
use xstack.Base.Outcome.{done}
use xstack.Kad.Bucket
use xstack.Kad.Bucket.Laws.{try_insert_cases}
use xstack.Kad.Table.{Identity, peer_index}
use xstack.Kad.Table.Insert.{IsTable, peers_at, peers_at-here, try_insert-Inserted, after_insert}
use xstack.Kad.Refresh.{State, Ping, insert_prv, insert, on_ping, count}

All-absent {ℓ} :
    {A : Type ℓ} (dec : Discrete A) (p : A) (q : List A)
    → All (λ y. p ≢ y) q
    → contains dec q p ≡ false
All-absent dec p [] a = refl
All-absent dec p (x ∷ xs) a = ground (arith, All-absent dec p xs a.1)

module _ (I : Identity) (k : ℕ) (pos : 0 < k) where
  open I use {PeerId, discrete, key_of}

  -- One insertion, with what becomes of the bucket of the peer's index.
  record Step (s : State PeerId) (p : PeerId) (i : ℕ) : Type 0 where
    state : State PeerId
    popped : Option PeerId
    returns : insert_prv I k s p ≡ done (state, popped)
    is_popped : popped ≡ (Bucket.try_insert discrete k (peers_at s.table i) p).1
    bucket : peers_at state.table i ≡ (Bucket.try_insert discrete k (peers_at s.table i) p).0
    pings_kept : state.pings ≡ s.pings
    local_kept : state.table.local_key ≡ s.table.local_key
    valid : IsTable I k state.table

  insert_prv-Step :
      (s : State PeerId) (p : PeerId) (i : ℕ)
      → IsTable I k s.table
      → key_of p ≢ s.table.local_key
      → peer_index I k s.table.local_key p ≡ some i
      → Step s p i
  unfolding insert_prv
  insert_prv-Step s p i v other e =
      let (j, e', _, x) = try_insert-Inserted I k s.table p pos v other in
      let same : j ≡ i = ground arith in
      subst (Step s p) same (record {
        state = record s {
          table = x.table;
          len = count I k s.len p (after_insert I k s.table p pos v j).1;
        };
        popped = (after_insert I k s.table p pos v j).1;
        returns = rw x.returns refl;
        is_popped = refl;
        bucket = peers_at-here I k s.table p pos v j x;
        pings_kept = refl;
        local_kept = x.local_kept;
        valid = x.valid;
      })

  abbrev pub ping_of : PeerId → PeerId → Ping PeerId
  ping_of lru p = record { lru = lru; peer_id = p }

  spawned :
      (s : State PeerId) (p lru : PeerId) (i : ℕ) (x : Step s p i)
      → x.popped ≡ some lru
      → insert I k s p ≡ done (record x.state { pings = x.state.pings ++ ping_of lru p ∷ [] })
  unfolding insert
  spawned s p lru i x e = rw (x.returns, e) refl

  -- A peer that is new to a bucket with room is added at its tail.
  room_Step :
      (s : State PeerId) (q : PeerId) (i : ℕ)
      → IsTable I k s.table
      → contains discrete (peers_at s.table i) q ≡ false
      → length (peers_at s.table i) < k
      → (x : Step s q i) → peers_at x.state.table i ≡ peers_at s.table i ++ q ∷ []
  room_Step s q i v absent room x =
      let added : Bucket.try_insert discrete k (peers_at s.table i) q
          ≡ (peers_at s.table i ++ q ∷ [], none) =
        try_insert_cases discrete k (peers_at s.table i) q (v.buckets i)
        ∙ rw (absent, lt→ltb _ _ room) refl in
      x.bucket ∙ ap (λ (r : List PeerId × Option PeerId). r.0) added

  ended :
      (s : State PeerId) (p lru : PeerId) (i : ℕ) (answered : Bool)
      → IsTable I k s.table
      → key_of p ≢ s.table.local_key
      → key_of lru ≢ s.table.local_key
      → peer_index I k s.table.local_key p ≡ some i
      → peer_index I k s.table.local_key lru ≡ some i
      → length (peers_at s.table i) < k
      → contains discrete (peers_at s.table i) p ≡ false
      → contains discrete (peers_at s.table i) lru ≡ false
      → (s' : State PeerId) × (on_ping I k s (ping_of lru p) answered ≡ done s')
        × (peers_at s'.table i ≡ peers_at s.table i ++ (if answered then p else lru) ∷ [])
  unfolding on_ping
  ended s p lru i true v o o' e e' room a a' =
      let x = insert_prv-Step s p i v o e in
      (x.state, rw x.returns refl, room_Step s p i v a room x)
  ended s p lru i false v o o' e e' room a a' =
      let x = insert_prv-Step s lru i v o' e' in
      (x.state, rw x.returns refl, room_Step s lru i v a' room x)

  popped_front :
      (lru : PeerId) (rest : List PeerId) → Bucket.pop_front (lru ∷ rest) ≡ (rest, some lru)
  unfolding Bucket.pop_front
  popped_front lru rest = refl

  -- With a full bucket and a new peer for it, and nothing between the insertion and the end of the
  -- ping: the front of the bucket leaves it; if the ping is answered the new peer takes its place at
  -- the tail, and if the ping fails the peer that failed to answer is put back there.
  pub refresh_full :
      (s : State PeerId) (p lru : PeerId) (rest : List PeerId) (i : ℕ) (answered : Bool)
      → IsTable I k s.table
      → key_of p ≢ s.table.local_key
      → key_of lru ≢ s.table.local_key
      → peer_index I k s.table.local_key p ≡ some i
      → peer_index I k s.table.local_key lru ≡ some i
      → peers_at s.table i ≡ lru ∷ rest
      → length (peers_at s.table i) ≡ k
      → contains discrete (peers_at s.table i) p ≡ false
      → (s₁ : State PeerId) × (insert I k s p ≡ done s₁)
        × (s₁.pings ≡ s.pings ++ ping_of lru p ∷ [])
        × (peers_at s₁.table i ≡ rest)
        × ((s₂ : State PeerId) × (on_ping I k s₁ (ping_of lru p) answered ≡ done s₂)
            × (peers_at s₂.table i ≡ rest ++ (if answered then p else lru) ∷ []))
  refresh_full s p lru rest i answered v other other' at_p at_lru here full absent =
      let x = insert_prv-Step s p i v other at_p in
      let cases = try_insert_cases discrete k (peers_at s.table i) p (v.buckets i) in
      let evicted : Bucket.try_insert discrete k (peers_at s.table i) p ≡ (rest, some lru) =
        cases
        ∙ rw (absent, le→ltb (length (peers_at s.table i)) k (omega arith))
            (ap Bucket.pop_front here ∙ popped_front lru rest) in
      let out : x.popped ≡ some lru =
        x.is_popped ∙ ap (λ (r : List PeerId × Option PeerId). r.1) evicted in
      let left : peers_at x.state.table i ≡ rest =
        x.bucket ∙ ap (λ (r : List PeerId × Option PeerId). r.0) evicted in
      let s₁ = record x.state { pings = x.state.pings ++ ping_of lru p ∷ [] } in
      let distinct = subst Distinct here (v.buckets i).distinct in
      let room : length (peers_at x.state.table i) < k =
        omega (arith, ap length left, ap length here) in
      let absent' : contains discrete (lru ∷ rest) p ≡ false = rw here at absent in
      let p_out : contains discrete rest p ≡ false = ground arith in
      let answer =
        ended s₁ p lru i answered x.valid (rw x.local_kept other) (rw x.local_kept other')
          (rw x.local_kept at_p) (rw x.local_kept at_lru) room (rw left p_out)
          (rw left (All-absent discrete lru rest distinct.0)) in
      (
        s₁,
        spawned s p lru i x out,
        rw x.pings_kept refl,
        left,
        (answer.0, answer.1, answer.2 ∙ ap (λ l. l ++ (if answered then p else lru) ∷ []) left),
      )
