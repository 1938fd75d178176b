-- ===== src/PeerBook/Relays.antt =====
-- `choose_nat_peers` of the peer book.
use native.Mathlib.Omega.{arith}
use mathlib.Core.List.{append_assoc, append-nil}
use xstack.Base.{
  ℕ, zero, suc, ◌<◌, ◌≡◌, sym, ap, ◌∙◌, List, [], ◌∷◌, ◌++◌, Option, none, some, Bool, false,
  if◌then◌else◌, length, length-append, take, take_of_length-le, take-append_left, ◌==◌, Bool-cases,
  inl, inr, Option-cases,
}
use xstack.Base.Map.{Map}
use xstack.PeerBook.{Names, Book, nat_peers_loop, choose_nat_peers}

module _ (N : Names) (is_circuit : N.Addr → Bool)
    (with_p2p : N.Addr → N.PeerId → Option N.Addr) where
  open N use {PeerId, Addr}

  abbrev pub relay : Addr → PeerId → Option Addr
  relay a p = if is_circuit a then with_p2p a p else none

  -- All relayed addresses of the book, each with its peer.
  unfoldable pub relayed : Map Addr PeerId → List Addr
  relayed [] = []
  relayed ((a, p) ∷ m) =
      let rest = relayed m in elim (relay a p) [ none ↦ rest | some addr ↦ addr ∷ rest ]

  nat_peers_loop-take :
      (limits : ℕ) (m : Map Addr PeerId) (raddrs : List Addr)
      → length raddrs < limits
      → nat_peers_loop N is_circuit with_p2p limits m raddrs ≡ take limits (raddrs ++ relayed m)
  unfolding nat_peers_loop relayed
  nat_peers_loop-take limits [] raddrs h =
      sym (ap (take limits) (append-nil raddrs) ∙ take_of_length-le limits raddrs (omega arith))
  nat_peers_loop-take limits ((a, p) ∷ m) raddrs h = elim (Option-cases (relay a p)) [
    | inl e ↦ rw (nat_peers_loop, relayed, e) (nat_peers_loop-take limits m raddrs h)
    | inr (addr, e) ↦
        let grown = length-append raddrs (addr ∷ []) in
        let shift : (raddrs ++ addr ∷ []) ++ relayed m ≡ raddrs ++ addr ∷ relayed m =
          append_assoc raddrs (addr ∷ []) (relayed m) in
        elim (Bool-cases (length (raddrs ++ addr ∷ []) == limits)) [
          | inl full ↦
              rw (nat_peers_loop, relayed, e, full)
                (sym (
                  ap (take limits) (sym shift)
                  ∙ take-append_left limits (raddrs ++ addr ∷ []) (relayed m) (ground (arith, full))
                  ∙ take_of_length-le limits (raddrs ++ addr ∷ []) (ground (arith, full))))
          | inr more ↦
              rw (nat_peers_loop, relayed, e, more)
                (nat_peers_loop-take limits m (raddrs ++ addr ∷ []) (ground (arith, more, grown, h))
                  ∙ ap (take limits) shift)
        ]
  ]

  nat_peers_loop-unbounded :
      (m : Map Addr PeerId) (raddrs : List Addr)
      → nat_peers_loop N is_circuit with_p2p 0 m raddrs ≡ raddrs ++ relayed m
  unfolding nat_peers_loop relayed
  nat_peers_loop-unbounded [] raddrs = sym (append-nil raddrs)
  nat_peers_loop-unbounded ((a, p) ∷ m) raddrs = elim (Option-cases (relay a p)) [
    | inl e ↦ rw (nat_peers_loop, relayed, e) (nat_peers_loop-unbounded m raddrs)
    | inr (addr, e) ↦
        let grown = length-append raddrs (addr ∷ []) in
        let more : (length (raddrs ++ addr ∷ []) == 0) ≡ false = ground (arith, grown) in
        rw (nat_peers_loop, relayed, e, more)
          (nat_peers_loop-unbounded m (raddrs ++ addr ∷ [])
            ∙ append_assoc raddrs (addr ∷ []) (relayed m))
  ]

  -- `choose_nat_peers` gives the first `limits` of the relayed addresses in the order of iteration;
  -- with the limit 0 it gives them all.
  pub choose_nat_peers_lem :
      (b : Book N) (limits : ℕ)
      → choose_nat_peers N is_circuit with_p2p b limits
        ≡ (if limits == 0 then relayed b.peer_addrs else take limits (relayed b.peer_addrs))
  unfolding choose_nat_peers
  choose_nat_peers_lem b zero = nat_peers_loop-unbounded b.peer_addrs []
  choose_nat_peers_lem b (suc n) =
      let bounded : (suc n == 0) ≡ false = ground arith in
      rw bounded (nat_peers_loop-take (suc n) b.peer_addrs [] (omega arith))
