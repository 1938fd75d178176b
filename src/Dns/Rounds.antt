-- ===== src/Dns/Rounds.antt =====
-- What the rounds of `lookup` lead to.
use xstack.Base.{
  ◌≡◌, refl, sym, subst, ◌∙◌, List, [], ◌∷◌, ◌++◌, Bool, true, false, arith, ℕ, zero, suc, All,
  All-append, Bool-cases, inl, inr,
}
use xstack.Base.Result.{ok, bind-inversion, ok-injective}
use xstack.Multiaddr.{Multiaddr, is_dnsaddr_transport}
use xstack.Dns.{Resolver, dns_lookup, lookup_in_time, gather, sort_out, lookup_loop, lookup}

module _ {Ip PeerId Other : Type 0} (P : Multiaddr Ip PeerId Other → Type 0) where
  abbrev pub IsResolved : Multiaddr Ip PeerId Other → Type 0
  IsResolved addr = P addr × (is_dnsaddr_transport addr ≡ false)

  abbrev pub AreSorted :
      List (Multiaddr Ip PeerId Other) × List (Multiaddr Ip PeerId Other) → Type 0
  AreSorted (dnsaddrs, parsed) = All P dnsaddrs × All IsResolved parsed

  sort_out-AreSorted :
      (dnsaddrs parsed cached : List (Multiaddr Ip PeerId Other))
      → All P dnsaddrs
      → All IsResolved parsed
      → All P cached
      → AreSorted (sort_out dnsaddrs parsed cached)
  unfolding sort_out
  sort_out-AreSorted dnsaddrs parsed [] hd hp hc = (hd, hp)
  sort_out-AreSorted dnsaddrs parsed (addr ∷ cached) hd hp (h, hc) =
      go (is_dnsaddr_transport addr) refl
        (sort_out-AreSorted (dnsaddrs ++ addr ∷ []) parsed cached
          (All-append P dnsaddrs (addr ∷ []) hd (h, tt)) hp hc)
        (λ final.
          sort_out-AreSorted dnsaddrs (parsed ++ addr ∷ []) cached hd
            (All-append IsResolved parsed (addr ∷ []) hp ((h, final), tt)) hc)
    where
      go :
          (b : Bool)
          → is_dnsaddr_transport addr ≡ b
          → AreSorted (sort_out (dnsaddrs ++ addr ∷ []) parsed cached)
          → (is_dnsaddr_transport addr ≡ false
              → AreSorted (sort_out dnsaddrs (parsed ++ addr ∷ []) cached))
          → AreSorted (elim b [
            | true ↦ sort_out (dnsaddrs ++ addr ∷ []) parsed cached
            | false ↦ sort_out dnsaddrs (parsed ++ addr ∷ []) cached
          ])
      go true e again final = again
      go false e again final = final e

module _ {Ip PeerId Other E : Type 0} (P : Multiaddr Ip PeerId Other → Type 0) where
  -- A property that holds of what an address with it is resolved to.
  abbrev pub IsKept : Resolver Ip PeerId Other E → Type 0
  IsKept R =
      (addr : Multiaddr Ip PeerId Other) (found : List (Multiaddr Ip PeerId Other))
      → P addr
      → dns_lookup R addr ≡ ok found
      → All P found

  in_time-dns_lookup :
      (R : Resolver Ip PeerId Other E) (addr : Multiaddr Ip PeerId Other)
      (found : List (Multiaddr Ip PeerId Other))
      → lookup_in_time R addr ≡ ok found
      → dns_lookup R addr ≡ ok found
  unfolding lookup_in_time
  in_time-dns_lookup R addr found e = elim (Bool-cases (R.is_late addr)) [
    | inl late ↦ absurd (ground (arith, e, late))
    | inr early ↦ sym (rw (lookup_in_time, early) refl) ∙ e
  ]

  gather-All :
      (R : Resolver Ip PeerId Other E) (cached addrs out : List (Multiaddr Ip PeerId Other))
      → IsKept R
      → All P cached
      → All P addrs
      → gather R cached addrs ≡ ok out
      → All P out
  unfolding gather
  gather-All R cached [] out kept hc ha e = subst (All P) (ok-injective e) hc
  gather-All R cached (addr ∷ addrs) out kept hc (h, ha) e =
      let (found, looked, rest) =
        bind-inversion (lookup_in_time R addr) (λ raddrs. gather R (cached ++ raddrs) addrs) out
          e in
      let hf = kept addr found h (in_time-dns_lookup R addr found looked) in
      gather-All R (cached ++ found) addrs out kept (All-append P cached found hc hf) ha rest

  lookup_loop-All :
      (R : ℕ → Resolver Ip PeerId Other E) (rounds : ℕ)
      (dnsaddrs parsed out : List (Multiaddr Ip PeerId Other))
      → ((n : ℕ) → IsKept (R n))
      → All P dnsaddrs
      → All (IsResolved P) parsed
      → lookup_loop R rounds dnsaddrs parsed ≡ ok out
      → All (IsResolved P) out
  unfolding lookup_loop
  lookup_loop-All R rounds [] parsed out kept hd hp e =
      subst (All (IsResolved P)) (ok-injective e) hp
  lookup_loop-All R zero (addr ∷ dnsaddrs) parsed out kept hd hp e =
      subst (All (IsResolved P)) (ok-injective e) hp
  lookup_loop-All R (suc rounds) (addr ∷ dnsaddrs) parsed out kept hd hp e =
      let (cached, gathered, rest) =
        bind-inversion (gather (R rounds) [] (addr ∷ dnsaddrs))
          (λ cached.
            lookup_loop R rounds (sort_out [] parsed cached).0 (sort_out [] parsed cached).1)
          out e in
      let hc = gather-All (R rounds) [] (addr ∷ dnsaddrs) cached (kept rounds) tt hd gathered in
      let (again, final) = sort_out-AreSorted P [] parsed cached tt hp hc in
      lookup_loop-All R rounds (sort_out [] parsed cached).0 (sort_out [] parsed cached).1 out kept
        again final rest

  -- Whatever `lookup` returns has no name left to resolve, and was found by resolving the address it
  -- was given: it has each property of that address that the answers of the servers keep.
  pub lookup-All :
      (R : ℕ → Resolver Ip PeerId Other E) (limit : ℕ) (raddr : Multiaddr Ip PeerId Other)
      (out : List (Multiaddr Ip PeerId Other))
      → ((n : ℕ) → IsKept (R n))
      → P raddr
      → lookup R limit raddr ≡ ok out
      → All (IsResolved P) out
  unfolding lookup
  lookup-All R limit raddr out kept h e =
      lookup_loop-All R (suc limit) (raddr ∷ []) [] out kept (h, tt) tt e
