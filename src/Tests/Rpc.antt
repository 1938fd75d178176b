-- ===== src/Tests/Rpc.antt =====
-- Runs of the calls on a stream.
use xstack.Base.{ℕ, ◌≡◌, refl, arith, List, [], ◌∷◌, replicate, false}
use xstack.Base.Result.{Result, ok, err}
use xstack.Rpc.{
  xstack_send, write_all, read_usize, receive_body, read_exact, Library, Message, Io, xstack_recv,
}
use xstack.Rpc.Session.{send_each, recv_each, send_each-recv_each}

abbrev decode_head : List ℕ → Result (ℕ × List ℕ) (Unit {0})
decode_head [] = err tt
decode_head (n ∷ rest) = ok (n, rest)

abbrev library : Library
library = record {
  Foreign = Unit {0};
  Addr = ℕ;
  PeerId = ℕ;
  unexpected_eof = tt;
  broken_pipe = tt;
  encode = λ n. n ∷ [];
  decode = decode_head;
  decode-encode = λ n rest. refl;
}

abbrev body_of : List ℕ → Result (List ℕ) (Unit {0})
body_of bytes = ok bytes

abbrev bytes_message : Message (Unit {0})
bytes_message = record { M = List ℕ; write_to_bytes = λ m. ok m; parse_from_bytes = body_of }

abbrev open_with : List ℕ → Io
open_with bytes = record { input = bytes; output = []; is_closed = false }

abbrev messages : List (List ℕ)
messages = (7 ∷ 8 ∷ []) ∷ [] ∷ (9 ∷ []) ∷ []

send_each-recv_each_example :
    recv_each library bytes_message 2 3 (open_with (2 ∷ 7 ∷ 8 ∷ 0 ∷ 1 ∷ 9 ∷ 5 ∷ []))
    ≡ (ok messages, open_with (5 ∷ []))
unfolding send_each xstack_send write_all
send_each-recv_each_example =
    send_each-recv_each library bytes_message 2 messages
      (open_with (2 ∷ 7 ∷ 8 ∷ 0 ∷ 1 ∷ 9 ∷ 5 ∷ [])) (5 ∷ [])
      (
        (7 ∷ 8 ∷ [], refl, refl, omega arith),
        (([], refl, refl, omega arith), ((9 ∷ [], refl, refl, omega arith), tt)),
      )
      refl

received :
    xstack_recv library bytes_message 2 (open_with (1 ∷ 7 ∷ 8 ∷ []))
    ≡ (ok (7 ∷ []), open_with (8 ∷ []))
unfolding xstack_recv read_usize receive_body read_exact
received = refl

abbrev block : ℕ → List ℕ
block n = replicate 32 n
