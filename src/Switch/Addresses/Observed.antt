-- ===== src/Switch/Addresses/Observed.antt =====
-- The window of the addresses that peers have observed.
use native.Mathlib.Omega.{arith}
use mathlib.Core.List.{append_assoc, append-nil}
use xstack.Base.{
  ℕ, suc, ◌-◌, ◌≤◌, ◌<◌, ◌≡◌, sym, ap, ◌∙◌, List, [], ◌∷◌, ◌++◌, length, length-append, length-drop,
  drop, ◌==◌, Bool-cases, inl, inr,
}
use xstack.Switch.Addresses.{MutableSwitch, pop_front_addr, observe_all, set_observed_addrs}

module _ {Addr : Type 0} (addr_discrete : Discrete Addr) where
  -- The last of a list, so many of them.
  abbrev pub last_of : ℕ → List Addr → List Addr
  last_of n xs = drop (length xs - n) xs

  last_of-all : (n : ℕ) (xs : List Addr) → length xs ≤ n → last_of n xs ≡ xs
  last_of-all n xs h =
      let none_left : length xs - n ≡ 0 = omega arith in ap (λ k. drop k xs) none_left

  last_of-pop_front_addr :
      (max : ℕ) (observed : List Addr) (a : Addr) (addrs : List Addr)
      → 0 < max
      → length observed ≡ max
      → last_of max (pop_front_addr addr_discrete observed ++ a ∷ addrs)
        ≡ last_of max (observed ++ a ∷ addrs)
  last_of-pop_front_addr max [] a addrs pos full = absurd (omega arith)
  last_of-pop_front_addr max (x ∷ observed) a addrs pos full =
      let shift : suc (length (observed ++ a ∷ addrs) - max)
          ≡ length (x ∷ observed ++ a ∷ addrs) - max =
        omega (arith, length-append observed (a ∷ addrs)) in
      ap (λ k. drop k (x ∷ observed ++ a ∷ addrs)) shift

  length-pop_front_addr :
      (xs : List Addr) → length (pop_front_addr addr_discrete xs) ≡ length xs - 1
  length-pop_front_addr [] = omega arith
  length-pop_front_addr (x ∷ xs) = omega arith

  observe_all-last_of :
      (max : ℕ) (observed addrs : List Addr)
      → 0 < max
      → length observed ≤ max
      → observe_all addr_discrete max observed addrs ≡ last_of max (observed ++ addrs)
  unfolding observe_all
  observe_all-last_of max observed [] pos fits =
      sym (ap (last_of max) (append-nil observed) ∙ last_of-all max observed fits)
  observe_all-last_of max observed (a ∷ addrs) pos fits =
      let shorter = pop_front_addr addr_discrete observed in
      elim (Bool-cases (length observed == max)) [
        | inl full ↦
            rw (observe_all, full)
              (observe_all-last_of max (shorter ++ a ∷ []) addrs pos (
                  omega (
                    arith,
                    length-append shorter (a ∷ []),
                    length-pop_front_addr observed,
                    pos,
                    fits,
                  ))
                ∙ ap (last_of max) (append_assoc shorter (a ∷ []) addrs)
                ∙ last_of-pop_front_addr max observed a addrs pos (ground (arith, full)))
        | inr room ↦
            rw (observe_all, room)
              (observe_all-last_of max (observed ++ a ∷ []) addrs pos
                  (ground (arith, room, fits, length-append observed (a ∷ [])))
                ∙ ap (last_of max) (append_assoc observed (a ∷ []) addrs))
      ]

  -- With room for one address at least, the observed addresses are, in order, the last of those that
  -- were observed, as many as there is room for.
  pub set_observed_addrs_lem :
      (s : MutableSwitch Addr) (addrs : List Addr)
      → 0 < s.max_observed_addrs_len
      → length s.observed_addrs ≤ s.max_observed_addrs_len
      → ((set_observed_addrs addr_discrete s addrs).observed_addrs
          ≡ last_of s.max_observed_addrs_len (s.observed_addrs ++ addrs))
        × (length (set_observed_addrs addr_discrete s addrs).observed_addrs
            ≤ s.max_observed_addrs_len)
  unfolding set_observed_addrs
  set_observed_addrs_lem s addrs pos fits = (
    observe_all-last_of s.max_observed_addrs_len s.observed_addrs addrs pos fits,
    rw (observe_all-last_of s.max_observed_addrs_len s.observed_addrs addrs pos fits) (
        omega (
          arith,
          length-drop (length (s.observed_addrs ++ addrs) - s.max_observed_addrs_len)
              (s.observed_addrs ++ addrs),
        )),
  )
