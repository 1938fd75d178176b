-- ===== src/Rpc.antt =====
-- `XStackRpc` of crates/xstack/src/rpc.rs: a message is sent as its length, a varint, and its bytes.
-- A stream is what can still be read from it and what was written to it.
pub mod Framing
pub mod Session
pub mod Call
pub mod Bounded
pub mod Ping
use xstack.Base.{
  ℕ, zero, suc, ◌+◌, ◌≤◌, ◌≡◌, List, [], ◌∷◌, ◌++◌, Bool, true, false, ◌&&◌, not, if◌then◌else◌,
  length, take, drop, ltb, leb, ◌==◌,
}
use xstack.Base.Result.{Result, ok, err}
use xstack.Error.{Error, io_error, unsigned_varint, overflow, protobuf_error, ping_mismatch}

-- What the calls use of other libraries: the errors, and the varints of `unsigned_varint`, where a
-- number that was written is read again, whatever follows it.
pub record Library : Type 1 where
  pub Foreign : Type 0
  pub Addr : Type 0
  pub PeerId : Type 0
  pub unexpected_eof : Foreign
  pub broken_pipe : Foreign
  pub encode : ℕ → List ℕ
  pub decode : List ℕ → Result (ℕ × List ℕ) Foreign
  pub decode-encode : (n : ℕ) (rest : List ℕ) → decode (encode n ++ rest) ≡ ok (n, rest)

-- A type of protobuf messages.
pub record Message (Foreign : Type 0) : Type 1 where
  pub M : Type 0
  pub write_to_bytes : M → Result (List ℕ) Foreign
  pub parse_from_bytes : List ℕ → Result M Foreign

-- A stream, as `read_exact` and `write_all` of the futures library show it to the code.
pub record Io : Type 0 where
  pub input : List ℕ
  pub output : List ℕ
  pub is_closed : Bool

module _ (L : Library) where
  open L use {Foreign, Addr, PeerId, unexpected_eof, broken_pipe, encode, decode}

  -- A call on a stream.
  abbrev pub Action : Type 0 → Type 0
  Action A = Io → Result A (Error Addr PeerId Foreign) × Io

  abbrev pub pure : {A : Type 0} → A → Action A
  pure a io = (ok a, io)

  abbrev pub raise : {A : Type 0} → Error Addr PeerId Foreign → Action A
  raise e io = (err e, io)

  abbrev pub continue :
      {A B : Type 0}
      → Result A (Error Addr PeerId Foreign) × Io
      → (A → Action B)
      → Result B (Error Addr PeerId Foreign) × Io
  continue (ok a, io) f = f a io
  continue (err e, io) f = (err e, io)

  infixl 5 ◌>>=◌ ◌>>◌
  abbrev pub ◌>>=◌ : {A B : Type 0} → Action A → (A → Action B) → Action B
  ◌>>=◌ m f io = continue (m io) f

  abbrev pub ◌>>◌ : {A B : Type 0} → Action A → Action B → Action B
  m >> k = m >>= λ _. k

  -- An error of another library, with `?`.
  abbrev pub lift :
      {A : Type 0} → (Foreign → Error Addr PeerId Foreign) → Result A Foreign → Action A
  lift wrap (ok a) = pure a
  lift wrap (err e) = raise (wrap e)

  abbrev pub guard : Bool → Error Addr PeerId Foreign → Action (Unit {0})
  guard refused e io = if refused then raise e io else pure tt io

  abbrev pub keep_rest :
      Io → Result (ℕ × List ℕ) Foreign → Result ℕ (Error Addr PeerId Foreign) × Io
  keep_rest io (ok (n, rest)) = (ok n, record io { input = rest })
  keep_rest io (err e) = (err (unsigned_varint e), io)

  -- `unsigned_varint::aio::read_usize`.
  unfoldable pub read_usize : Action ℕ
  read_usize io = keep_rest io (decode io.input)

  -- `read_exact`: the end of the stream before that is an error, with nothing left to read.
  unfoldable pub read_exact : ℕ → Action (List ℕ)
  read_exact n io =
      if leb n (length io.input)
      then (ok (take n io.input), record io { input = drop n io.input })
      else (err (io_error unexpected_eof), record io { input = [] })

  -- `write_all`.
  unfoldable pub write_all : List ℕ → Action (Unit {0})
  write_all bytes io =
      if io.is_closed
      then (err (io_error broken_pipe), io)
      else (ok tt, record io { output = io.output ++ bytes })

  module _ (P : Message Foreign) where
    open P use {M, write_to_bytes, parse_from_bytes}

    unfoldable pub xstack_send : M → Action (Unit {0})
    unfolding write_all
    xstack_send message = do
      buf ← lift protobuf_error (write_to_bytes message)
      write_all (encode (length buf))
      write_all buf

    -- What all of the calls do once they have read the length of a message: a message over the
    -- limit is refused, with a number for the error.
    unfoldable pub receive_body : ℕ → ℕ → ℕ → Action M
    unfolding read_exact
    receive_body max_recv_len reported body_len = do
      guard (ltb max_recv_len body_len) (overflow reported)
      buf ← read_exact body_len
      lift protobuf_error (parse_from_bytes buf)

    unfoldable pub xstack_recv : ℕ → Action M
    unfolding read_usize receive_body
    xstack_recv max_recv_len = do
      body_len ← read_usize
      receive_body max_recv_len max_recv_len body_len

    unfoldable pub xstack_call : M → ℕ → Action M
    unfolding xstack_send read_usize receive_body
    xstack_call message max_recv_len = do
      xstack_send message
      body_len ← read_usize
      receive_body max_recv_len max_recv_len body_len

    unfoldable pub xstack_recv_identity : ℕ → Action M
    unfolding read_usize receive_body
    xstack_recv_identity max_packet_size = do
      body_len ← read_usize
      receive_body max_packet_size body_len body_len

  unfoldable pub same_bytes : List ℕ → List ℕ → Bool
  same_bytes [] [] = true
  same_bytes (x ∷ xs) (y ∷ ys) = let rest = same_bytes xs ys in (x == y) && rest
  same_bytes _ _ = false

  -- `xstack_ping`, on the random bytes.
  unfoldable pub xstack_ping : List ℕ → Action (Unit {0})
  unfolding write_all read_exact same_bytes
  xstack_ping buf = do
    write_all buf
    echo ← read_exact 32
    guard (not (same_bytes echo buf)) ping_mismatch

  -- One round of `ping_echo` of crates/xstack/src/switch/protocols.rs, and so many of them.
  unfoldable pub echo_once : Action (Unit {0})
  unfolding read_exact write_all
  echo_once = do buf ← read_exact 32; write_all buf

  unfoldable pub ping_echo : ℕ → Action (Unit {0})
  unfolding echo_once
  ping_echo zero = pure tt
  ping_echo (suc rounds) = echo_once >> ping_echo rounds
