-- ===== src/Rpc/Session.antt =====
-- Several messages on one stream.
use mathlib.Core.List.{append_assoc, append-nil}
use xstack.Base.{
  ℕ, zero, suc, ◌≤◌, ◌≡◌, refl, sym, ap, ◌∙◌, List, [], ◌∷◌, ◌++◌, false, length, le→ltb, All,
}
use xstack.Base.Result.{Result, ok}
use xstack.Error.{Error}
use xstack.Rpc.{Library, Message, Io, Action, pure, xstack_send, xstack_recv, ◌>>=◌, ◌>>◌}
use xstack.Rpc.Framing.{frame, bind-ok, xstack_send_lem, receive-frame}

module _ (L : Library) (P : Message (Library.Foreign L)) where
  open P use {M, write_to_bytes, parse_from_bytes}

  unfoldable pub send_each : List M → Action L (Unit {0})
  unfolding xstack_send
  send_each [] = pure L tt
  send_each (m ∷ ms) = ◌>>◌ L (xstack_send L P m) (send_each ms)

  -- So many calls of `xstack_recv`.
  unfoldable pub recv_each : ℕ → ℕ → Action L (List M)
  unfolding xstack_recv
  recv_each max zero = pure L []
  recv_each max (suc n) =
      ◌>>=◌ L (xstack_recv L P max) λ m. ◌>>=◌ L (recv_each max n) λ ms. pure L (m ∷ ms)

  -- A message that can be written, in no more than the limit, and is what its bytes are parsed to.
  abbrev pub IsSendable : ℕ → M → Type 0
  IsSendable max m =
      (bytes : List ℕ) × (write_to_bytes m ≡ ok bytes)
      × (parse_from_bytes bytes ≡ ok m)
      × (length bytes ≤ max)

  -- What is written for the messages, and how it is read.
  abbrev pub Carries : ℕ → List M → Io → Type 0
  Carries max ms io =
      (out : List ℕ) × (send_each ms io ≡ (ok tt, record io { output = io.output ++ out }))
      × ((peer : Io) (rest : List ℕ)
          → peer.input ≡ out ++ rest
          → recv_each max (length ms) peer ≡ (ok ms, record peer { input = rest }))

  pub receive_one :
      (peer : Io) (m : M) (bytes rest : List ℕ) (max : ℕ)
      → parse_from_bytes bytes ≡ ok m
      → length bytes ≤ max
      → peer.input ≡ frame L bytes ++ rest
      → xstack_recv L P max peer ≡ (ok m, record peer { input = rest })
  receive_one peer m bytes rest max p fits e =
      (receive-frame L P peer bytes rest max e).0 ∙ rw (le→ltb max (length bytes) fits, p) refl

  send_each-Carries :
      (max : ℕ) (ms : List M) (io : Io)
      → All (IsSendable max) ms
      → io.is_closed ≡ false
      → Carries max ms io
  unfolding send_each recv_each
  send_each-Carries max [] io h open_stream = (
    [],
    ap (λ out. (ok tt, record io { output = out })) (sym (append-nil io.output)),
    λ peer rest e. ap (λ i. (ok [], record peer { input = i })) e,
  )
  send_each-Carries max (m ∷ ms) io ((bytes, w, p, fits), h) open_stream =
      let io' : Io = record io { output = io.output ++ frame L bytes } in
      let (out, sent, read) = send_each-Carries max ms io' h open_stream in
      (
        frame L bytes ++ out,
        bind-ok L (xstack_send L P m) (λ _. send_each ms) io io' tt
              (xstack_send_lem L P io m bytes w open_stream)
            ∙ sent
            ∙ ap (λ o. (ok tt, record io { output = o }))
                (append_assoc io.output (frame L bytes) out),
        λ peer rest e.
            let mid : Io = record peer { input = out ++ rest } in
            bind-ok L (xstack_recv L P max)
              (λ m'. ◌>>=◌ L (recv_each max (length ms)) λ ms'. pure L (m' ∷ ms')) peer mid m
              (receive_one peer m bytes (out ++ rest) max p fits
                (e ∙ append_assoc (frame L bytes) out rest))
            ∙ bind-ok L (recv_each max (length ms)) (λ ms'. pure L (m ∷ ms')) mid
                (record peer { input = rest }) ms (read mid rest refl),
      )

  -- Messages that are sent one after the other on an open stream are received in order on its other
  -- end, each as it was, and what the stream carries after them is left to read; the messages fit
  -- the limit of the receiver and are what their bytes are parsed to.
  pub send_each-recv_each :
      (max : ℕ) (ms : List M) (peer : Io) (rest : List ℕ)
      → All (IsSendable max) ms
      → peer.input
        ≡ (send_each ms (record { input = []; output = []; is_closed = false })).1.output ++ rest
      → recv_each max (length ms) peer ≡ (ok ms, record peer { input = rest })
  send_each-recv_each max ms peer rest h e =
      let (out, sent, read) =
        send_each-Carries max ms (record { input = []; output = []; is_closed = false }) h refl in
      read peer rest (
        e
        ∙ ap
            (λ (r : Result (Unit {0})
                  (Error (Library.Addr L) (Library.PeerId L) (Library.Foreign L))
                × Io).
              r.1.output ++ rest)
            sent)
