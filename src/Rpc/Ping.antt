-- ===== src/Rpc/Ping.antt =====
-- The ping and its echo.
use mathlib.Core.List.{append_assoc, append-nil}
use xstack.Base.{
  ℕ, zero, suc, arith, ◌<◌, ◌≡◌, ◌↔◌, refl, sym, ap, ◌∙◌, List, [], ◌∷◌, ◌++◌, true, false, not,
  ◌&&◌, length, leb, ◌==◌, All, Bool-cases, inl, inr,
}
use xstack.Base.Result.{Result, ok, err}
use xstack.Error.{Error, io_error, ping_mismatch}
use xstack.Rpc.{
  Library, Io, continue, guard, read_exact, write_all, same_bytes, xstack_ping, echo_once,
  ping_echo, ◌>>=◌,
}
use xstack.Rpc.Framing.{bind-ok, read_exact-append, write_all-open}

module _ (L : Library) where
  open L use {Foreign, Addr, PeerId, unexpected_eof}

  same_bytes_refl : (xs : List ℕ) → same_bytes L xs xs ≡ true
  unfolding same_bytes
  same_bytes_refl [] = refl
  same_bytes_refl (x ∷ xs) = ground (arith, same_bytes_refl xs)

  same_bytes_sound : (xs ys : List ℕ) → same_bytes L xs ys ≡ true → xs ≡ ys
  unfolding same_bytes
  same_bytes_sound [] [] e = refl
  same_bytes_sound [] (y ∷ ys) e = absurd (ground arith)
  same_bytes_sound (x ∷ xs) [] e = absurd (ground arith)
  same_bytes_sound (x ∷ xs) (y ∷ ys) e = elim (Bool-cases (x == y)) [
    | inl same ↦
        let tails : same_bytes L xs ys ≡ true = sym (ap (λ b. b && same_bytes L xs ys) same) ∙ e in
        let heads : x ≡ y = ground (arith, same) in rw (heads, same_bytes_sound xs ys tails) refl
    | inr differ ↦ absurd (ground (arith, e, differ))
  ]

  mismatch_not_ok :
      ¬ (◌≡◌ {A = Result (Unit {0}) (Error Addr PeerId Foreign)} (err ping_mismatch) (ok tt))
  mismatch_not_ok e = absurd (ground arith)

  true_not_false : ¬ (true ≡ false)
  true_not_false e = absurd (ground arith)

  ping_run :
      (io : Io) (buf echo rest : List ℕ)
      → io.is_closed ≡ false
      → length echo ≡ 32
      → io.input ≡ echo ++ rest
      → xstack_ping L buf io
        ≡ guard L
            (not (same_bytes L echo buf))
            ping_mismatch
            (record io { input = rest; output = io.output ++ buf })
  unfolding xstack_ping
  ping_run io buf echo rest open_stream len e =
      let sent : Io = record io { output = io.output ++ buf } in
      let check = λ (reply : List ℕ). guard L (not (same_bytes L reply buf)) ping_mismatch in
      bind-ok L (write_all L buf) (λ _. ◌>>=◌ L (read_exact L 32) check) io sent tt
        (write_all-open L io buf open_stream)
      ∙ bind-ok L (read_exact L 32) check sent (record sent { input = rest }) echo
          (ap (λ n. read_exact L n sent) (sym len) ∙ read_exact-append L sent echo rest e)

  -- A ping on an open stream on which 32 bytes come back succeeds exactly when they are the bytes
  -- that it sent.
  pub xstack_ping_iff :
      (io : Io) (buf echo rest : List ℕ)
      → io.is_closed ≡ false
      → length echo ≡ 32
      → io.input ≡ echo ++ rest
      → ((xstack_ping L buf io).0 ≡ ok tt) ↔ (echo ≡ buf)
  xstack_ping_iff io buf echo rest open_stream len e =
      let io' : Io = record io { input = rest; output = io.output ++ buf } in
      let run = ap (λ r. r.0) (ping_run io buf echo rest open_stream len e) in
      elim (Bool-cases (same_bytes L echo buf)) [
        | inl same ↦ (
          λ _. same_bytes_sound echo buf same,
          λ _. run ∙ ap (λ b. (guard L (not b) ping_mismatch io').0) same,
        )
        | inr differ ↦ (
          λ h.
              let failed = ap (λ b. (guard L (not b) ping_mismatch io').0) differ in
              absurd (mismatch_not_ok (sym failed ∙ sym run ∙ h)),
          λ same. absurd (
              true_not_false
                (sym (same_bytes_refl buf) ∙ ap (λ xs. same_bytes L xs buf) (sym same) ∙ differ)),
        )
      ]

  echo_once-block :
      (io : Io) (block rest : List ℕ)
      → io.is_closed ≡ false
      → length block ≡ 32
      → io.input ≡ block ++ rest
      → echo_once L io ≡ (ok tt, record io { input = rest; output = io.output ++ block })
  unfolding echo_once
  echo_once-block io block rest open_stream len e =
      bind-ok L (read_exact L 32) (write_all L) io (record io { input = rest }) block
        (ap (λ n. read_exact L n io) (sym len) ∙ read_exact-append L io block rest e)
      ∙ write_all-open L (record io { input = rest }) block open_stream

  echo_once-end :
      (io : Io)
      → length io.input < 32
      → echo_once L io ≡ (err (io_error unexpected_eof), record io { input = [] })
  unfolding echo_once read_exact
  echo_once-end io short = let e : leb 32 (length io.input) ≡ false = ground arith in rw e refl

  abbrev pub flatten : List (List ℕ) → List ℕ
  flatten [] = []
  flatten (block ∷ blocks) = block ++ flatten blocks

  -- The echo writes every whole block of 32 bytes that arrives, in order, and ends with the error
  -- of the end of the stream, which drops the bytes of a block that is not whole.
  pub ping_echo_lem :
      (blocks : List (List ℕ)) (tail : List ℕ) (io : Io) (rounds : ℕ)
      → All (λ block. length block ≡ 32) blocks
      → length tail < 32
      → io.is_closed ≡ false
      → io.input ≡ flatten blocks ++ tail
      → length blocks < rounds
      → ping_echo L rounds io ≡ (
        err (io_error unexpected_eof),
        record io { input = []; output = io.output ++ flatten blocks },
      )
  unfolding ping_echo
  ping_echo_lem blocks tail io zero whole short open_stream e enough =
      absurd (omega (arith, enough))
  ping_echo_lem [] tail io (suc rounds) whole short open_stream e enough =
      ap (λ r. continue L r (λ _. ping_echo L rounds)) (echo_once-end io (rw e short))
      ∙ ap (λ o. (err (io_error unexpected_eof), record io { input = []; output = o }))
          (sym (append-nil io.output))
  ping_echo_lem (block ∷ blocks) tail io (suc rounds) (len, whole) short open_stream e enough =
      let rest = flatten blocks ++ tail in
      let io' : Io = record io { input = rest; output = io.output ++ block } in
      bind-ok L (echo_once L) (λ _. ping_echo L rounds) io io' tt
        (echo_once-block io block rest open_stream len
          (e ∙ append_assoc block (flatten blocks) tail))
      ∙ ping_echo_lem blocks tail io' rounds whole short open_stream refl (omega (arith, enough))
      ∙ ap (λ o. (err (io_error unexpected_eof), record io { input = []; output = o }))
          (append_assoc io.output block (flatten blocks))
