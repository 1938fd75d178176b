-- ===== src/Kad/Refresh/Run.antt =====
-- Any history of a bound table: connections and ends of pings in any order.
use xstack.Base.{
  ℕ, zero, suc, ◌*◌, ◌<◌, ◌≡◌, ◌≢◌, refl, ap, ◌∙◌, List, [], ◌∷◌, ◌++◌, Option, none, some, Bool,
  true, false, if◌then◌else◌, All, All-append, get_elem?, subst, length, sym, arith,
}
use xstack.Base.Outcome.{Outcome, done}
use xstack.Kad.Bucket.{remove_at}
use xstack.Kad.Bucket.Laws.{All-remove_at}
use xstack.Kad.Key
use xstack.Kad.Table.{Identity, empty}
use xstack.Kad.Table.Insert.{IsTable, empty-IsTable, peers_at, no_slots}
use xstack.Kad.Refresh.{
  State, Ping, Event, connected, pinged, usize_mod, insert, on_ping, bind, step, run,
}
use xstack.Kad.Refresh.Count.{IsCounted, Settled, insert_prv-Settled, total, sum_below}

All-get_elem? {ℓ κ} :
    {A : Type ℓ} (P : A → Type κ) (xs : List A) (n : ℕ) (a : A)
    → All P xs
    → get_elem? xs n ≡ some a
    → P a
All-get_elem? P [] n a h e = absurd (ground arith)
All-get_elem? P (x ∷ xs) zero a h e = subst P (ground arith) h.0
All-get_elem? P (x ∷ xs) (suc n) a h e = All-get_elem? P xs n a h.1 e

module _ (I : Identity) (k : ℕ) (pos : 0 < k) (fits : Key.key_bits * k < usize_mod) where
  open I use {PeerId, key_of, key_of-lt}

  -- The states that agree with `s` in the local key and whose counter is right.
  pub record Next (local_key : ℕ) (o : Outcome (State PeerId)) : Type 0 where
    pub state : State PeerId
    pub returns : o ≡ done state
    pub counted : IsCounted I k pos fits state
    pub local_kept : state.table.local_key ≡ local_key

  insert-Next :
      (s : State PeerId) (p : PeerId)
      → IsCounted I k pos fits s
      → key_of p ≢ s.table.local_key
      → Next s.table.local_key (insert I k s p)
  unfolding insert
  insert-Next s p c other =
      let x = insert_prv-Settled I k pos fits s p c other in go x x.popped refl
    where
      go :
          (x : Settled I k pos fits s p) (o : Option PeerId)
          → x.popped ≡ o
          → Next s.table.local_key (insert I k s p)
      go x none e = record {
        state = x.state;
        returns = rw (x.returns, e) refl;
        counted = x.counted;
        local_kept = x.local_kept;
      }
      go x (some lru) e = record {
        state = record x.state { pings = x.state.pings ++ record { lru = lru; peer_id = p } ∷ [] };
        returns = rw (x.returns, e) refl;
        counted = record {
          valid = x.counted.valid;
          counted = x.counted.counted;
          foreign =
              All-append _ x.state.pings (record { lru = lru; peer_id = p } ∷ []) x.counted.foreign
                ((rw x.local_kept (x.foreign lru e), rw x.local_kept other), tt);
        };
        local_kept = x.local_kept;
      }

  on_ping-Next :
      (s : State PeerId) (ping : Ping PeerId) (answered : Bool)
      → IsCounted I k pos fits s
      → key_of ping.lru ≢ s.table.local_key
      → key_of ping.peer_id ≢ s.table.local_key
      → Next s.table.local_key (on_ping I k s ping answered)
  unfolding on_ping
  on_ping-Next s ping answered c a b = go answered (chosen answered)
    where
      chosen : (d : Bool) → Settled I k pos fits s (if d then ping.peer_id else ping.lru)
      chosen true = insert_prv-Settled I k pos fits s ping.peer_id c b
      chosen false = insert_prv-Settled I k pos fits s ping.lru c a

      go :
          (d : Bool)
          → Settled I k pos fits s (if d then ping.peer_id else ping.lru)
          → Next s.table.local_key (on_ping I k s ping d)
      go d x = record {
        state = x.state;
        returns = rw x.returns refl;
        counted = x.counted;
        local_kept = x.local_kept;
      }

  -- The peers that connect are not the local one.
  abbrev pub IsForeign : ℕ → Event PeerId → Type 0
  IsForeign local_key (connected p) = key_of p ≢ local_key
  IsForeign local_key (pinged n answered) = Unit {0}

  step-Next :
      (s : State PeerId) (e : Event PeerId)
      → IsCounted I k pos fits s
      → IsForeign s.table.local_key e
      → Next s.table.local_key (step I k s e)
  unfolding step
  step-Next s (connected p) c h = insert-Next s p c h
  step-Next s (pinged n answered) c h = go (get_elem? s.pings n) refl
    where
      go :
          (o : Option (Ping PeerId))
          → get_elem? s.pings n ≡ o
          → Next s.table.local_key (step I k s (pinged n answered))
      go none e =
          rw (e, step) (record { state = s; returns = refl; counted = c; local_kept = refl })
      go (some ping) e =
          let (a, b) = All-get_elem? _ s.pings n ping c.foreign e in
          rw (e, step)
            (on_ping-Next (record s { pings = remove_at s.pings n }) ping answered
              (record {
                valid = c.valid;
                counted = c.counted;
                foreign = All-remove_at _ s.pings n c.foreign;
              })
              a b)

  run-Next :
      (s : State PeerId) (es : List (Event PeerId))
      → IsCounted I k pos fits s
      → All (IsForeign s.table.local_key) es
      → Next s.table.local_key (run I k s es)
  unfolding run
  run-Next s [] c h = record { state = s; returns = refl; counted = c; local_kept = refl }
  run-Next s (e ∷ es) c h =
      let x = step-Next s e c h.0 in
      let y = run-Next x.state es x.counted (rw x.local_kept h.1) in
      record {
        state = y.state;
        returns = rw x.returns y.returns;
        counted = y.counted;
        local_kept = y.local_kept ∙ x.local_kept;
      }

  no_peers :
      (n local_key : ℕ)
      → sum_below n (λ i. length (peers_at {PeerId = PeerId} (empty local_key) i)) ≡ 0
  unfolding sum_below peers_at empty
  no_peers zero local_key = refl
  no_peers (suc n) local_key =
      omega (arith, no_peers n local_key, ap length (no_slots I k Key.key_bits n))

  bind-IsCounted : (local_id : PeerId) → IsCounted I k pos fits (bind I k local_id)
  unfolding bind total
  bind-IsCounted local_id = record {
    valid = empty-IsTable I k (key_of local_id) (key_of-lt local_id);
    counted = sym (no_peers Key.key_bits (key_of local_id));
    foreign = tt;
  }

  -- From `bind` on, in any order of connections of other peers and of ends of pings, answered or
  -- not, nothing panics; the table stays in form, and the counter, which wraps around at 2^64, is
  -- the number of peers that the table holds, for a `K` with 256 * K < 2^64.
  pub run-IsCounted :
      (local_id : PeerId) (es : List (Event PeerId))
      → All (IsForeign (key_of local_id)) es
      → (s : State PeerId) × (run I k (bind I k local_id) es ≡ done s)
        × IsTable I k s.table
        × (s.len ≡ total s.table)
  unfolding bind
  run-IsCounted local_id es h =
      let x = run-Next (bind I k local_id) es (bind-IsCounted local_id) (unfold empty in h) in
      (x.state, x.returns, x.counted.valid, x.counted.counted)
