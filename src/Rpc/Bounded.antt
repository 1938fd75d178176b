-- ===== src/Rpc/Bounded.antt =====
-- What a call that succeeds has read.
use xstack.Base.{
  ℕ, arith, ◌≤◌, ◌≡◌, refl, sym, ap, ◌∙◌, List, ◌++◌, Bool, true, false, length, length-take, take,
  drop, take-append-drop, ltb, leb, Bool-cases, inl, inr,
}
use xstack.Base.Result.{Result, ok, err}
use xstack.Error.{Error, overflow, protobuf_error}
use xstack.Rpc.{
  Library, Message, Io, Action, lift, guard, continue, keep_rest, read_usize, read_exact,
  receive_body, xstack_recv, ◌>>=◌,
}

module _ (L : Library) where
  open L use {Foreign, Addr, PeerId, decode}

  -- A sequence that succeeds: both of its parts do.
  bind-inversion :
      {A B : Type 0} (r : Result A (Error Addr PeerId Foreign) × Io) (f : A → Action L B) (b : B)
      (io' : Io)
      → continue L r f ≡ (ok b, io')
      → (a : A) × (io : Io) × (r ≡ (ok a, io)) × (f a io ≡ (ok b, io'))
  bind-inversion (ok a, io) f b io' e = (a, io, refl, e)
  bind-inversion (err x, io) f b io' e = absurd (ground arith)

  abbrev ok_of : {A : Type 0} → A → Result A (Error Addr PeerId Foreign) → A
  ok_of a (ok b) = b
  ok_of a (err x) = a

  read_usize-decode :
      (io io' : Io) (n : ℕ) → read_usize L io ≡ (ok n, io') → decode io.input ≡ ok (n, io'.input)
  unfolding read_usize
  read_usize-decode io io' n e = go (decode io.input) refl e
    where
      go :
          (r : Result (ℕ × List ℕ) Foreign)
          → decode io.input ≡ r
          → keep_rest L io r ≡ (ok n, io')
          → r ≡ ok (n, io'.input)
      go (ok (k, rest)) d f = ap (λ r. ok (ok_of k r.0, r.1.input)) f
      go (err x) d f = absurd (ground arith)

  read_exact-inversion :
      (io io' : Io) (n : ℕ) (buf : List ℕ)
      → read_exact L n io ≡ (ok buf, io')
      → (length buf ≡ n) × (io.input ≡ buf ++ io'.input)
  unfolding read_exact
  read_exact-inversion io io' n buf e = elim (Bool-cases (leb n (length io.input))) [
    | inl enough ↦
        let f : ◌≡◌ {A = Result (List ℕ) (Error Addr PeerId Foreign) × Io}
            (ok (take n io.input), record io { input = drop n io.input }) (ok buf, io') =
          sym (rw (read_exact, enough) refl) ∙ e in
        let b : take n io.input ≡ buf = ap (λ r. ok_of (take n io.input) r.0) f in
        let d : drop n io.input ≡ io'.input = ap (λ r. r.1.input) f in
        (
          sym (ap length b) ∙ length-take n io.input ∙ ground (arith, enough),
          sym (take-append-drop n io.input)
              ∙ ap (λ x. x ++ drop n io.input) b
              ∙ ap (λ y. buf ++ y) d,
        )
    | inr short ↦ absurd (ground (arith, e, short))
  ]

  guard-inversion :
      (refused : Bool) (x : Error Addr PeerId Foreign) (io io' : Io)
      → guard L refused x io ≡ (ok tt, io')
      → (refused ≡ false) × (io ≡ io')
  guard-inversion true x io io' e = absurd (ground arith)
  guard-inversion false x io io' e = (refl, ap (λ r. r.1) e)

  lift-inversion :
      {A : Type 0} (wrap : Foreign → Error Addr PeerId Foreign) (r : Result A Foreign) (a : A)
      (io io' : Io)
      → lift L wrap r io ≡ (ok a, io')
      → (r ≡ ok a) × (io ≡ io')
  lift-inversion wrap (ok b) a io io' e = (ap (λ r. ok (ok_of b r.0)) e, ap (λ r. r.1) e)
  lift-inversion wrap (err x) a io io' e = absurd (ground arith)

  module _ (P : Message Foreign) where
    open P use {M, parse_from_bytes}

    -- A body that is received is no longer than the limit and stood at the front of the stream.
    receive_body-inversion :
        (max reported n : ℕ) (m : M) (io io' : Io)
        → receive_body L P max reported n io ≡ (ok m, io')
        → (body : List ℕ) × (length body ≡ n)
          × (n ≤ max)
          × (parse_from_bytes body ≡ ok m)
          × (io.input ≡ body ++ io'.input)
    unfolding receive_body
    receive_body-inversion max reported n m io io' e =
        let (u, io1, checked, rest) =
          bind-inversion (guard L (ltb max n) (overflow reported) io)
            (λ _. ◌>>=◌ L (read_exact L n) λ buf. lift L protobuf_error (parse_from_bytes buf)) m
            io' e in
        let (fits, same) = guard-inversion (ltb max n) (overflow reported) io io1 checked in
        let (buf, io2, got, parsed) =
          bind-inversion (read_exact L n io1) (λ buf. lift L protobuf_error (parse_from_bytes buf))
            m io' rest in
        let (len, split) = read_exact-inversion io1 io2 n buf got in
        let (p, last) = lift-inversion protobuf_error (parse_from_bytes buf) m io2 io' parsed in
        (
          buf,
          len,
          ground (arith, fits),
          p,
          ap Io.input same ∙ split ∙ ap (λ i. buf ++ i.input) last,
        )

    -- When `xstack_recv` returns a message, the stream began with a length within the limit and with
    -- a body of that length, which is what the message was parsed from, and no more was read.
    pub xstack_recv-inversion :
        (max : ℕ) (m : M) (io io' : Io)
        → xstack_recv L P max io ≡ (ok m, io')
        → (body : List ℕ) × (length body ≤ max)
          × (parse_from_bytes body ≡ ok m)
          × (decode io.input ≡ ok (length body, body ++ io'.input))
    unfolding xstack_recv
    xstack_recv-inversion max m io io' e =
        let (n, io1, prefix, rest) =
          bind-inversion (read_usize L io) (receive_body L P max max) m io' e in
        let (body, len, fits, p, split) = receive_body-inversion max max n m io1 io' rest in
        (body, rw len fits, p, read_usize-decode io io1 n prefix ∙ rw (len, split) refl)
