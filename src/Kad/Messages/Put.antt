-- ===== src/Kad/Messages/Put.antt =====
-- When a value counts as put.
use xstack.Base.{
  ℕ, ◌≤◌, ◌≡◌, refl, ◌↔◌, List, ◌++◌, length, true, false, arith, Bool-cases, inl, inr, ite,
  if◌then◌else◌, ◌==◌,
}
use xstack.Base.Result.{Result, ok, err}
use xstack.Rpc.{Io}
use xstack.Rpc.Framing.{frame}
use xstack.Rpc.Call.{xstack_call_lem}
use xstack.Switch.State.{Net, library}
use xstack.Kad.Messages.{
  bytes_discrete, Error, rpc_type, KadMessage, put_value, put_request, check_put, Codec, kad,
  kad_put_value,
}

module _ (N : Net) (C : Codec N) where
  check_put_iff :
      (message resp : KadMessage)
      → (check_put N C message resp ≡ ok tt)
        ↔ ((message.key ≡ resp.key) × (message.kind ≡ resp.kind))
  check_put_iff message resp =
      elim (bytes_discrete message.key resp.key)
        as (λ d.
          (◌≡◌ {A = Result (Unit {0}) (Error N)}
            (if ite d true false
              then (if message.kind == resp.kind then ok tt else err rpc_type)
              else err rpc_type)
            (ok tt))
          ↔ ((message.key ≡ resp.key) × (message.kind ≡ resp.kind))) [
            | no apart ↦ (λ e. absurd (ground (arith, e)), λ both. absurd (apart both.0))
            | yes same ↦ elim (Bool-cases (message.kind == resp.kind)) [
              | inl kinds ↦ (λ _. (same, ground (arith, kinds)), λ _. rw kinds refl)
              | inr others ↦ (
                λ e. absurd (ground (arith, e, others)),
                λ both. absurd (ground (arith, both.1, others)),
              )
            ]
          ]

  -- A value counts as put, where an answer comes back on an open stream, exactly where the answer has
  -- the type `PUT_VALUE` and the key. The messages fit the limit and are what their bytes are parsed to.
  pub kad_put_value_iff :
      (io : Io) (key value : List ℕ) (max : ℕ) (answer : KadMessage) (request back rest : List ℕ)
      → C.write (put_request N C key value) ≡ ok request
      → C.parse back ≡ ok answer
      → length back ≤ max
      → io.is_closed ≡ false
      → io.input ≡ frame (library N) back ++ rest
      → ((kad_put_value N C key value max io).0 ≡ ok tt)
        ↔ ((key ≡ answer.key) × (put_value ≡ answer.kind))
  unfolding kad_put_value
  kad_put_value_iff io key value max answer request back rest written parsed fits open_stream e =
      rw
        (xstack_call_lem (library N) (kad N C) io (put_request N C key value) answer request back
          rest max written parsed fits open_stream e)
        (check_put_iff (put_request N C key value) answer)
