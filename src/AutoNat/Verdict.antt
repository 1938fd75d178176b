-- ===== src/AutoNat/Verdict.antt =====
-- The verdict on the network: the third report of a kind decides, and nothing changes it.
use native.Mathlib.Omega.{arith}
use xstack.Base.{
  ℕ, ◌+◌, ◌≤◌, ◌<◌, ◌≡◌, refl, List, [], ◌∷◌, true, false, if◌then◌else◌, ◌==◌, Bool-cases, inl,
  inr, ap, ◌∙◌,
}
use xstack.Base.Map
use xstack.Base.Map.{Map}
use xstack.AutoNat.{
  AutoNat, public, nat, unknown, same, RawAutoNatClient, sum, state, next_count, success, failed,
  Network, Report, ok, refused, start, on_report, run,
}

module _ {Addr : Type 0} (addr_discrete : Discrete Addr) where
  -- The verdict by counting, whatever the addresses are: the kind that is reported thrice first.
  unfoldable pub verdict : ℕ → ℕ → List (Report addr_discrete) → AutoNat
  verdict s f [] = unknown
  verdict s f (ok a ∷ rs) = let rest = verdict (s + 1) f rs in if s == 2 then public else rest
  verdict s f (refused ∷ rs) = let rest = verdict s (f + 1) rs in if f == 2 then nat else rest

  sum-count :
      (a : Addr) (m : Map Addr ℕ)
      → sum addr_discrete
          (Map.insert addr_discrete a (next_count addr_discrete (Map.get addr_discrete a m)) m)
        ≡ sum addr_discrete m + 1
  unfolding sum Map.insert Map.get
  sum-count a [] = refl
  sum-count a ((b, n) ∷ m) = ground (arith, sum-count a m)

  same_self : (n : AutoNat) → same n n ≡ true
  same_self public = refl
  same_self nat = refl
  same_self unknown = refl

  report-decided :
      (s : Network addr_discrete) (r : Report addr_discrete)
      → same (state addr_discrete s.client) unknown ≡ false
      → on_report addr_discrete s r ≡ s
  unfolding on_report success failed
  report-decided s (ok a) h = rw (h, same_self (state addr_discrete s.client)) refl
  report-decided s refused h = rw (h, same_self (state addr_discrete s.client)) refl

  -- Once it is decided, nothing changes.
  run-decided :
      (s : Network addr_discrete) (rs : List (Report addr_discrete))
      → same (state addr_discrete s.client) unknown ≡ false
      → run addr_discrete s rs ≡ s
  unfolding run
  run-decided s [] h = refl
  run-decided s (r ∷ rs) h = rw (report-decided s r h) (run-decided s rs h)

  state-unknown :
      (c : RawAutoNatClient Addr)
      → sum addr_discrete c.dial_succ ≤ 2
      → c.dial_failed ≤ 2
      → state addr_discrete c ≡ unknown
  unfolding state
  state-unknown c few few' = ground arith

  state-public :
      (c : RawAutoNatClient Addr)
      → 2 < sum addr_discrete c.dial_succ
      → state addr_discrete c ≡ public
  unfolding state
  state-public c many = ground arith

  state-nat :
      (c : RawAutoNatClient Addr)
      → sum addr_discrete c.dial_succ ≤ 2
      → 2 < c.dial_failed
      → state addr_discrete c ≡ nat
  unfolding state
  state-nat c few many = ground arith

  -- A client that has not decided.
  record IsOpen (s : Network addr_discrete) : Type 0 where
    few_ok : sum addr_discrete s.client.dial_succ ≤ 2
    few_refused : s.client.dial_failed ≤ 2
    undecided : s.network ≡ unknown

  -- What `on_report` makes of an open client.
  abbrev counted_ok : RawAutoNatClient Addr → Addr → RawAutoNatClient Addr
  counted_ok c a = record c {
    dial_succ =
        Map.insert addr_discrete a (next_count addr_discrete (Map.get addr_discrete a c.dial_succ))
          c.dial_succ;
  }

  changed : (n : AutoNat) → (if same unknown n then unknown else n) ≡ n
  changed public = refl
  changed nat = refl
  changed unknown = refl

  report-ok :
      (s : Network addr_discrete) (a : Addr)
      → IsOpen s
      → on_report addr_discrete s (ok a) ≡ record {
        client = counted_ok s.client a;
        network = state addr_discrete (counted_ok s.client a);
      }
  unfolding on_report success
  report-ok s a v =
      rw
        (
          state-unknown s.client v.few_ok v.few_refused,
          v.undecided,
          changed (state addr_discrete (counted_ok s.client a)),
        )
        refl

  report-refused :
      (s : Network addr_discrete)
      → IsOpen s
      → on_report addr_discrete s refused ≡ record {
        client = record s.client { dial_failed = s.client.dial_failed + 1 };
        network = state addr_discrete (record s.client { dial_failed = s.client.dial_failed + 1 });
      }
  unfolding on_report failed
  report-refused s v =
      rw
        (
          state-unknown s.client v.few_ok v.few_refused,
          v.undecided,
          changed
              (state addr_discrete (record s.client { dial_failed = s.client.dial_failed + 1 })),
        )
        refl

  run-verdict :
      (s : Network addr_discrete) (rs : List (Report addr_discrete))
      → IsOpen s
      → (run addr_discrete s rs).network
        ≡ verdict (sum addr_discrete s.client.dial_succ) s.client.dial_failed rs
  unfolding run verdict
  run-verdict s [] v = v.undecided
  run-verdict s (ok a ∷ rs) v =
      let c = counted_ok s.client a in
      let n = sum-count a s.client.dial_succ in
      let t : Network addr_discrete = record { client = c; network = state addr_discrete c } in
      elim (Bool-cases (sum addr_discrete s.client.dial_succ == 2)) [
        | inl last ↦
            let p = state-public c (ground (arith, n, last)) in
            rw (run, verdict, report-ok s a v, last, run-decided t rs (ap (λ k. same k unknown) p))
              p
        | inr more ↦
            let u = state-unknown c (ground (arith, n, more, v.few_ok)) v.few_refused in
            rw (run, verdict, report-ok s a v, more)
              (run-verdict t rs (record {
                few_ok = ground (arith, n, more, v.few_ok);
                few_refused = v.few_refused;
                undecided = u;
              })
                ∙ ap (λ k. verdict k s.client.dial_failed rs) n)
      ]
  run-verdict s (refused ∷ rs) v =
      let c : RawAutoNatClient Addr = record s.client { dial_failed = s.client.dial_failed + 1 } in
      let t : Network addr_discrete = record { client = c; network = state addr_discrete c } in
      elim (Bool-cases (s.client.dial_failed == 2)) [
        | inl last ↦
            let p = state-nat c v.few_ok (ground (arith, last)) in
            rw
              (
                run,
                verdict,
                report-refused s v,
                last,
                run-decided t rs (ap (λ k. same k unknown) p),
              )
              p
        | inr more ↦
            let few : s.client.dial_failed + 1 ≤ 2 = ground (arith, more, v.few_refused) in
            let u = state-unknown c v.few_ok few in
            rw (run, verdict, report-refused s v, more)
              (run-verdict t rs (record { few_ok = v.few_ok; few_refused = few; undecided = u }))
      ]

  -- From the start on, the state of the network that the switch has is decided by the third report
  -- of a successful dial, to whatever addresses, or of a failed one, whichever comes first, and it is
  -- unknown before.
  pub network-verdict :
      (rs : List (Report addr_discrete))
      → (run addr_discrete (start addr_discrete) rs).network ≡ verdict 0 0 rs
  unfolding sum
  network-verdict rs =
      run-verdict (start addr_discrete) rs
        (record { few_ok = omega arith; few_refused = omega arith; undecided = refl })
