-- ===== src/Rpc/Framing.antt =====
-- Messages on a stream: what is sent is received, and nothing longer than the limit is read.
use mathlib.Core.List.{append_assoc}
use xstack.Base.{
  ℕ, arith, ◌≡◌, refl, ap, ◌∙◌, List, [], ◌∷◌, ◌++◌, true, false, if◌then◌else◌, length,
  length-append, take, drop, ltb, leb, Bool-cases, inl, inr,
}
use xstack.Base.Result.{ok, err}
use xstack.Error.{overflow, protobuf_error}
use xstack.Rpc.{
  Library, Message, Io, Action, continue, receive_body, lift, read_usize, read_exact, write_all,
  xstack_send, xstack_recv, xstack_recv_identity, ◌>>=◌,
}

take-append_left : (xs ys : List ℕ) → take (length xs) (xs ++ ys) ≡ xs
take-append_left [] ys = refl
take-append_left (x ∷ xs) ys = rw (take-append_left xs ys)

drop-append_left : (xs ys : List ℕ) → drop (length xs) (xs ++ ys) ≡ ys
drop-append_left [] ys = refl
drop-append_left (x ∷ xs) ys = drop-append_left xs ys

module _ (L : Library) where
  open L use {Foreign, Addr, PeerId, encode, decode, decode-encode}

  -- A message on the wire.
  abbrev pub frame : List ℕ → List ℕ
  frame bytes = encode (length bytes) ++ bytes

  pub bind-ok :
      {A B : Type 0} (m : Action L A) (f : A → Action L B) (io io' : Io) (a : A)
      → m io ≡ (ok a, io')
      → ◌>>=◌ L m f io ≡ f a io'
  bind-ok m f io io' a e = ap (λ r. continue L r f) e

  read_usize-frame :
      (io : Io) (bytes rest : List ℕ)
      → io.input ≡ frame bytes ++ rest
      → read_usize L io ≡ (ok (length bytes), record io { input = bytes ++ rest })
  unfolding read_usize
  read_usize-frame io bytes rest e =
      rw
        (
          e,
          append_assoc (encode (length bytes)) bytes rest,
          decode-encode (length bytes) (bytes ++ rest),
        )
        refl

  pub read_exact-append :
      (io : Io) (bytes rest : List ℕ)
      → io.input ≡ bytes ++ rest
      → read_exact L (length bytes) io ≡ (ok bytes, record io { input = rest })
  unfolding read_exact
  read_exact-append io bytes rest e =
      let enough : leb (length bytes) (length (bytes ++ rest)) ≡ true =
        ground (arith, length-append bytes rest) in
      rw (e, enough, take-append_left bytes rest, drop-append_left bytes rest) refl

  pub write_all-open :
      (io : Io) (bytes : List ℕ)
      → io.is_closed ≡ false
      → write_all L bytes io ≡ (ok tt, record io { output = io.output ++ bytes })
  unfolding write_all
  write_all-open io bytes e = rw e refl

  module _ (P : Message Foreign) where
    open P use {M, write_to_bytes, parse_from_bytes}

    pub xstack_send_lem :
        (io : Io) (message : M) (bytes : List ℕ)
        → write_to_bytes message ≡ ok bytes
        → io.is_closed ≡ false
        → xstack_send L P message io ≡ (ok tt, record io { output = io.output ++ frame bytes })
    unfolding xstack_send
    xstack_send_lem io message bytes e open_stream =
        let length_bytes = encode (length bytes) in
        let io' : Io = record io { output = io.output ++ length_bytes } in
        bind-ok (lift L protobuf_error (write_to_bytes message))
          (λ buf. ◌>>=◌ L (write_all L (encode (length buf))) (λ _. write_all L buf)) io io bytes
          (rw e refl)
        ∙ bind-ok (write_all L length_bytes) (λ _. write_all L bytes) io io' tt
            (write_all-open io length_bytes open_stream)
        ∙ write_all-open io' bytes open_stream
        ∙ ap (λ out. (ok tt, record io { output = out }))
            (append_assoc io.output length_bytes bytes)

    receive_body-frame :
        (io : Io) (bytes rest : List ℕ) (max reported : ℕ)
        → io.input ≡ bytes ++ rest
        → receive_body L P max reported (length bytes) io ≡ (
            if ltb max (length bytes)
            then (err (overflow reported), io)
            else lift L protobuf_error (parse_from_bytes bytes) (record io { input = rest }))
    unfolding receive_body
    receive_body-frame io bytes rest max reported e = elim (Bool-cases (ltb max (length bytes))) [
      | inl long ↦ rw (receive_body, long) refl
      | inr fits ↦
          rw (receive_body, fits)
            (bind-ok (read_exact L (length bytes))
              (λ buf. lift L protobuf_error (parse_from_bytes buf)) io (record io { input = rest })
              bytes (read_exact-append io bytes rest e))
    ]

    -- A message whose length is over the limit is refused unread, with the limit in the error of
    -- `xstack_recv` and with the length in that of `xstack_recv_identity`; otherwise it is parsed.
    pub receive-frame :
        (io : Io) (bytes rest : List ℕ) (max : ℕ)
        → io.input ≡ frame bytes ++ rest
        → (xstack_recv L P max io ≡ (
            if ltb max (length bytes)
            then (err (overflow max), record io { input = bytes ++ rest })
            else lift L protobuf_error (parse_from_bytes bytes) (record io { input = rest })))
          × (xstack_recv_identity L P max io ≡ (
              if ltb max (length bytes)
              then (err (overflow (length bytes)), record io { input = bytes ++ rest })
              else lift L protobuf_error (parse_from_bytes bytes) (record io { input = rest })))
    unfolding xstack_recv xstack_recv_identity
    receive-frame io bytes rest max e =
        let io' : Io = record io { input = bytes ++ rest } in
        let prefix = read_usize-frame io bytes rest e in
        (
          bind-ok (read_usize L) (receive_body L P max max) io io' (length bytes) prefix
              ∙ receive_body-frame io' bytes rest max max refl,
          bind-ok (read_usize L) (λ n. receive_body L P max n n) io io' (length bytes) prefix
              ∙ receive_body-frame io' bytes rest max (length bytes) refl,
        )
