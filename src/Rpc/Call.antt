-- ===== src/Rpc/Call.antt =====
-- A request and its answer on one stream.
use xstack.Base.{ℕ, ◌≤◌, ◌≡◌, ◌∙◌, List, ◌++◌, false, length}
use xstack.Base.Result.{ok}
use xstack.Rpc.{Library, Message, Io, xstack_send, xstack_recv, xstack_call}
use xstack.Rpc.Framing.{frame, bind-ok, xstack_send_lem}
use xstack.Rpc.Session.{receive_one}

module _ (L : Library) (P : Message (Library.Foreign L)) where
  open P use {M, write_to_bytes, parse_from_bytes}

  -- A call on an open stream on which the answer comes back, within the limit.
  pub xstack_call_lem :
      (io : Io) (request answer : M) (sent back rest : List ℕ) (max : ℕ)
      → write_to_bytes request ≡ ok sent
      → parse_from_bytes back ≡ ok answer
      → length back ≤ max
      → io.is_closed ≡ false
      → io.input ≡ frame L back ++ rest
      → xstack_call L P request max io
        ≡ (ok answer, record io { input = rest; output = io.output ++ frame L sent })
  unfolding xstack_call xstack_recv
  xstack_call_lem io request answer sent back rest max written parsed fits open_stream e =
      let io' : Io = record io { output = io.output ++ frame L sent } in
      bind-ok L (xstack_send L P request) (λ _. xstack_recv L P max) io io' tt
        (xstack_send_lem L P io request sent written open_stream)
      ∙ receive_one L P io' answer back rest max parsed fits e
