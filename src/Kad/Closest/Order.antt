-- ===== src/Kad/Closest/Order.antt =====
-- `closest` returns the first `K` peers in the order in which the buckets are visited.
use mathlib.Core.List.{append_assoc, append-nil}
use mathlib.Core.Option
use xstack.Base.{
  ℕ, zero, suc, ◌+◌, ◌-◌, ◌^◌, ◌≤◌, ◌<◌, ◌≡◌, ◌⊎◌, refl, sym, ap, ◌∙◌, inl, inr, List, [], ◌++◌,
  Option, none, some, reverse, length, drop, take, ltb, leb, if◌then◌else◌, arith, length-append,
  length-reverse, take-append_left, take-append_right, take-reverse, take_of_length-le, Bool-cases,
  dec_lt, ltb→lt, subst, false, true,
}
use xstack.Base.Outcome.{Outcome, done, ◌>>=◌}
use xstack.Kad.Key
use xstack.Kad.Key.Laws.{k_index_cases}
use xstack.Kad.Key.Metric.{distance-lt}
use xstack.Kad.Table.{Identity, Table, bucket}
use xstack.Kad.Table.Insert.{IsTable, peers_at, bucket-peers_at}
use xstack.Kad.Closest.{
  add_bucket, follow, lower, upper, closest_loop, closest_fuel, closest, newest_first,
}

module _ {A : Type 0} (k : ℕ) where
  -- What was read stands for these peers.
  abbrev Reads : Option (List A) → List A → Type 0
  Reads o v = ((o ≡ none) × (v ≡ [])) ⊎ (o ≡ some v)

  follow-add_bucket :
      (peers v rest : List A) (o : Option (List A)) (f : List A → Outcome (List A))
      → Reads o v
      → length peers ≤ k
      → (length (peers ++ reverse v) ≤ k
          → f (peers ++ reverse v) ≡ done (take k ((peers ++ reverse v) ++ rest)))
      → follow (add_bucket k peers o) f ≡ done (take k (peers ++ (reverse v ++ rest)))
  unfolding follow add_bucket
  follow-add_bucket peers v rest o f (inl (unset, empty)) h ih =
      let f' : f peers ≡ done (take k (peers ++ rest)) = rw append-nil at (
        subst
          (λ w.
            length (peers ++ reverse w) ≤ k
            → f (peers ++ reverse w) ≡ done (take k ((peers ++ reverse w) ++ rest)))
          empty ih (rw append-nil h)) in
      rw (unset, empty) f'
  follow-add_bucket peers v rest o f (inr set) h ih =
      rw (set, add_bucket)
        (elim (Bool-cases (ltb k (length v + length peers))) [
          | inl over ↦ rw (over, follow) (ap done (sym (overfull (ground arith))))
          | inr fits ↦
              rw (fits, follow)
                (ih (
                    omega
                      (arith, length-append peers (reverse v), length-reverse v, le_of_fits fits))
                  ∙ ap (λ l. done (take k l)) (append_assoc peers (reverse v) rest))
        ])
    where
      le_of_fits : ltb k (length v + length peers) ≡ false → length v + length peers ≤ k
      le_of_fits e = ground arith

      overfull :
          k < length v + length peers
          → take k (peers ++ (reverse v ++ rest))
            ≡ peers ++ reverse (drop (length v + length peers - k) v)
      overfull over =
          take-append_right k peers (reverse v ++ rest) h
          ∙ ap (◌++◌ peers) (
              take-append_left (k - length peers) (reverse v) rest (omega (arith, length-reverse v))
              ∙ take-reverse (k - length peers) v (omega arith)
              ∙ ap (λ m. reverse (drop m v)) (omega arith))

-- The peers in the order in which `closest` visits them: the bucket of the key's index, then, for
-- each step, the bucket below and the bucket above, each from its most recently seen peer on.
module _ {A : Type 0} (at_index : ℕ → List A) (i : ℕ) where
  abbrev pub below : ℕ → List A
  below step = if leb step i then reverse (at_index (i - step)) else []

  abbrev pub above : ℕ → List A
  above step = if ltb (i + step) Key.key_bits then reverse (at_index (i + step)) else []

  unfoldable pub around : ℕ → ℕ → List A
  around zero step = []
  around (suc rounds) step = below step ++ (above step ++ around rounds (step + 1))

  unfoldable pub visited : List A
  visited = reverse (at_index i) ++ around Key.key_bits 1

  around_outside : (rounds step : ℕ) → i < step → Key.key_bits ≤ i + step → around rounds step ≡ []
  unfolding around
  around_outside zero step p q = refl
  around_outside (suc rounds) step p q = ground (arith, around_outside rounds (step + 1))

module _ (I : Identity) (k : ℕ) (t : Table I.PeerId) (v : IsTable I k t) where
  reads :
      (i : ℕ)
      → i < Key.key_bits
      → (o : Option (List I.PeerId)) × (bucket t i ≡ done o) × Reads k o (peers_at t i)
  reads i h = elim (bucket-peers_at I k t i v h) [
    | inl (e, empty) ↦ (none, e, inl (refl, empty))
    | inr e ↦ (some (peers_at t i), e, inr refl)
  ]

  module _ (i : ℕ) where
    lower_lem :
        (step : ℕ) (peers rest : List I.PeerId) (f : List I.PeerId → Outcome (List I.PeerId))
        → length peers ≤ k
        → i < Key.key_bits
        → (leb step i ≡ true) ⊎ (i + step < Key.key_bits)
        → (length (peers ++ below (peers_at t) i step) ≤ k
            → f (peers ++ below (peers_at t) i step)
              ≡ done (take k ((peers ++ below (peers_at t) i step) ++ rest)))
        → (lower k t i step peers >>= λ low. follow low f)
          ≡ done (take k (peers ++ (below (peers_at t) i step ++ rest)))
    unfolding lower follow
    lower_lem step peers rest f h range some_side ih = elim (Bool-cases (leb step i)) [
      | inl inside ↦
          let (o, e, r) = reads (i - step) (omega arith) in
          rw (inside, e)
            (follow-add_bucket k peers (peers_at t (i - step)) rest o f r h (rw inside at ih))
      | inr outside ↦
          let within : leb (length t.k_index) (i + step) ≡ false = ground (arith, v.sized) in
          rw (outside, within) ((rw (outside, append-nil) at ih) h)
    ]

    upper_lem :
        (step : ℕ) (peers rest : List I.PeerId) (f : List I.PeerId → Outcome (List I.PeerId))
        → length peers ≤ k
        → i < Key.key_bits
        → (leb step i ≡ true) ⊎ (i + step < Key.key_bits)
        → (length (peers ++ above (peers_at t) i step) ≤ k
            → f (peers ++ above (peers_at t) i step)
              ≡ done (take k ((peers ++ above (peers_at t) i step) ++ rest)))
        → (upper k t i step peers >>= λ up. follow up f)
          ≡ done (take k (peers ++ (above (peers_at t) i step ++ rest)))
    unfolding upper follow
    upper_lem step peers rest f h range some_side ih =
        elim (Bool-cases (ltb (i + step) Key.key_bits)) [
          | inl inside ↦
              let (o, e, r) = reads (i + step) (ltb→lt (i + step) Key.key_bits inside) in
              rw (v.sized, inside, e)
                (follow-add_bucket k peers (peers_at t (i + step)) rest o f r h (rw inside at ih))
          | inr outside ↦
              let within : ltb i step ≡ false = ground arith in
              rw (v.sized, outside, within) ((rw (outside, append-nil) at ih) h)
        ]

    -- Both indices have left the table.
    lower_outside :
        (step : ℕ) (peers : List I.PeerId) (f : List I.PeerId → Outcome (List I.PeerId))
        → leb step i ≡ false
        → Key.key_bits ≤ i + step
        → (lower k t i step peers >>= λ low. follow low f) ≡ done peers
    unfolding lower follow
    lower_outside step peers f p q =
        let past : leb (length t.k_index) (i + step) ≡ true = ground (arith, v.sized) in
        rw (p, past) refl

    full_lem :
        (peers rest : List I.PeerId)
        → length peers ≤ k
        → ltb (length peers) k ≡ false
        → take k (peers ++ rest) ≡ peers
    full_lem peers rest h full =
        take-append_left k peers rest (ground arith) ∙ take_of_length-le k peers h

    closest_loop_outside :
        (rounds step : ℕ) (peers : List I.PeerId)
        → length peers ≤ k
        → i < step
        → Key.key_bits ≤ i + step
        → closest_loop k t i (suc rounds) step peers
          ≡ done (take k (peers ++ around (peers_at t) i rounds step))
    unfolding closest_loop
    closest_loop_outside rounds step peers h p q =
        let nothing_left : take k (peers ++ around (peers_at t) i rounds step) ≡ peers =
          rw (around_outside (peers_at t) i rounds step p q, append-nil)
            (take_of_length-le k peers h) in
        elim (Bool-cases (ltb (length peers) k)) [
          | inr full ↦ rw full (ap done (sym nothing_left))
          | inl room ↦ rw (room, nothing_left) (lower_outside step peers _ (ground arith) q)
        ]

    -- A round that does not leave the loop visits one bucket on each side.
    one_round :
        (step : ℕ) (peers rest : List I.PeerId) (f : List I.PeerId → Outcome (List I.PeerId))
        → length peers ≤ k
        → i < Key.key_bits
        → (leb step i ≡ true) ⊎ (i + step < Key.key_bits)
        → ((l : List I.PeerId) → length l ≤ k → f l ≡ done (take k (l ++ rest)))
        → (lower k t i step peers >>= λ low.
            follow low λ peers. upper k t i step peers >>= λ up. follow up f)
          ≡ done
              (take k (peers ++ (below (peers_at t) i step ++ (above (peers_at t) i step ++ rest))))
    one_round step peers rest f h range side again =
        lower_lem step peers (above (peers_at t) i step ++ rest) _ h range side λ fits.
          upper_lem step (peers ++ below (peers_at t) i step) rest f fits range side
            λ fits'. again _ fits'

    closest_loop_lem :
        (rounds step : ℕ) (peers : List I.PeerId)
        → i < Key.key_bits
        → length peers ≤ k
        → i < step + rounds
        → Key.key_bits ≤ i + step + rounds
        → closest_loop k t i (suc rounds) step peers
          ≡ done (take k (peers ++ around (peers_at t) i rounds step))
    unfolding closest_loop around
    closest_loop_lem zero step peers range h p q =
        closest_loop_outside zero step peers h (omega arith) (omega arith)
    closest_loop_lem (suc rounds) step peers range h p q =
        let again = λ (l : List I.PeerId) (fits : length l ≤ k).
          closest_loop_lem rounds (step + 1) l range fits (omega arith) (omega arith) in
        elim (Bool-cases (ltb (length peers) k)) [
          | inr full ↦ rw full (ap done (sym (full_lem peers _ h full)))
          | inl room ↦ elim (dec_lt i step) [
            | no below ↦ rw room (one_round step peers _ _ h range (inl (ground arith)) again)
            | yes above ↦ elim (dec_lt (i + step) Key.key_bits) [
              | yes inside ↦ rw room (one_round step peers _ _ h range (inr inside) again)
              | no outside ↦ closest_loop_outside (suc rounds) step peers h above (omega arith)
            ]
          ]
        ]

  from_index :
      (i : ℕ)
      → i < Key.key_bits
      → (bucket t i >>= λ b. closest_loop k t i closest_fuel 1 (newest_first k b))
        ≡ done (take k (reverse (peers_at t i) ++ around (peers_at t) i Key.key_bits 1))
  from_index i h = elim (bucket-peers_at I k t i v h) [
    | inl (e, empty) ↦
        rw (e, empty)
          (closest_loop_lem i Key.key_bits 1 [] h (omega arith) (omega arith) (omega arith))
    | inr e ↦ rw e (
        closest_loop_lem i Key.key_bits 1 (reverse (peers_at t i)) h
          (omega (arith, length-reverse (peers_at t i), (v.buckets i).bounded)) (omega arith)
          (omega arith))
  ]

  -- `closest` does not panic and its loop ends: on a table in form it returns the first `K` peers in
  -- the order in which the buckets are visited, from the bucket of the distance index of the key,
  -- that of index 1 for the local key, alternately downwards and upwards.
  pub closest-visited :
      (key : ℕ)
      → key < 2 ^ Key.key_bits
      → closest k t key
        ≡ done (
            take k
              (visited (peers_at t) (Option.get_or (Key.k_index (Key.distance key t.local_key)) 1)))
  unfolding closest visited
  closest-visited key fits =
      let within : Option.get_or (Key.k_index (Key.distance key t.local_key)) 1 < Key.key_bits =
        elim (k_index_cases (Key.distance key t.local_key)
          (distance-lt key t.local_key fits v.local_fits)) [
            | inl (_, e) ↦ rw e (omega arith)
            | inr (i, e, h, _, _) ↦ rw e h
          ] in
      from_index (Option.get_or (Key.k_index (Key.distance key t.local_key)) 1) within
