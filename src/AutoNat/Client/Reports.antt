-- ===== src/AutoNat/Client/Reports.antt =====
-- What the answers to requests report.
use xstack.Base.{
  ℕ, ◌≡◌, refl, sym, ap, ◌∙◌, List, [], ◌∷◌, ◌++◌, Option, none, some, if◌then◌else◌, Bool-cases,
  inl, inr,
}
use xstack.Base.Result.{Result, ok, err}
use xstack.Rpc.{Io}
use xstack.AutoNat as AutoNats
use xstack.AutoNat.{Network, Report, refused, start, run}
use xstack.AutoNat.Verdict.{verdict, network-verdict}
use xstack.Switch.State.{Net, Addr, Failure}
use xstack.AutoNat.Client.{
  DialMessage, DialResponse, Codec, is_status_ok, on_addr, on_success, on_response, on_answer, ask,
  autonat_request, request_all,
}

module _ (N : Net) (C : Codec N) where
  -- What an answer reports of the node: a dial that succeeded only with an address.
  abbrev pub of_addr : Result (Addr N) N.Foreign → List (Report N.addr_discrete)
  of_addr (ok addr) = AutoNats.ok addr ∷ []
  of_addr (err e) = []

  abbrev pub of_success : Option (List ℕ) → List (Report N.addr_discrete)
  of_success none = []
  of_success (some bytes) = of_addr (N.try_from bytes)

  abbrev pub of_response : Option DialResponse → List (Report N.addr_discrete)
  of_response none = []
  of_response (some response) =
      if is_status_ok response.status then of_success response.addr else refused ∷ []

  abbrev pub of_answer : Result DialMessage (Failure N) → List (Report N.addr_discrete)
  of_answer (err e) = []
  of_answer (ok message) = of_response message.dial_response

  abbrev pub reports_of :
      N.PeerId → List (Addr N) → ℕ → Result Io (Failure N) → List (Report N.addr_discrete)
  reports_of local_id laddrs max (err e) = []
  reports_of local_id laddrs max (ok io) = of_answer (ask N C local_id laddrs max io).0

  -- The reports of all answers, in order.
  unfoldable pub all_reports :
      N.PeerId → List (Addr N) → ℕ → List (Result Io (Failure N)) → List (Report N.addr_discrete)
  all_reports local_id laddrs max [] = []
  all_reports local_id laddrs max (opened ∷ others) =
      reports_of local_id laddrs max opened ++ all_reports local_id laddrs max others

  on_addr-run :
      (s : Network N.addr_discrete) (r : Result (Addr N) N.Foreign)
      → (on_addr N C s r).1 ≡ run N.addr_discrete s (of_addr r)
  unfolding run
  on_addr-run s (ok addr) = refl
  on_addr-run s (err e) = refl

  on_success-run :
      (s : Network N.addr_discrete) (o : Option (List ℕ))
      → (on_success N C s o).1 ≡ run N.addr_discrete s (of_success o)
  unfolding run
  on_success-run s none = refl
  on_success-run s (some bytes) = on_addr-run s (N.try_from bytes)

  on_response-run :
      (s : Network N.addr_discrete) (o : Option DialResponse)
      → (on_response N C s o).1 ≡ run N.addr_discrete s (of_response o)
  unfolding run
  on_response-run s none = refl
  on_response-run s (some response) = elim (Bool-cases (is_status_ok response.status)) [
    | inl fine ↦ rw fine (on_success-run s response.addr)
    | inr bad ↦ rw bad refl
  ]

  on_answer-run :
      (s : Network N.addr_discrete) (o : Result DialMessage (Failure N) × Io)
      → (on_answer N C s o).1 ≡ run N.addr_discrete s (of_answer o.0)
  unfolding run
  on_answer-run s (err e, io) = refl
  on_answer-run s (ok message, io) = on_response-run s message.dial_response

  autonat_request-run :
      (local_id : N.PeerId) (laddrs : List (Addr N)) (max : ℕ) (opened : Result Io (Failure N))
      (s : Network N.addr_discrete)
      → (autonat_request N C local_id laddrs max opened s).1
        ≡ run N.addr_discrete s (reports_of local_id laddrs max opened)
  unfolding autonat_request run
  autonat_request-run local_id laddrs max (err e) s = refl
  autonat_request-run local_id laddrs max (ok io) s =
      on_answer-run s (ask N C local_id laddrs max io)

  run-append :
      (s : Network N.addr_discrete) (rs ts : List (Report N.addr_discrete))
      → run N.addr_discrete s (rs ++ ts) ≡ run N.addr_discrete (run N.addr_discrete s rs) ts
  unfolding run
  run-append s [] ts = refl
  run-append s (r ∷ rs) ts = run-append (AutoNats.on_report N.addr_discrete s r) rs ts

  request_all-run :
      (local_id : N.PeerId) (laddrs : List (Addr N)) (max : ℕ)
      (streams : List (Result Io (Failure N))) (s : Network N.addr_discrete)
      → request_all N C local_id laddrs max streams s
        ≡ run N.addr_discrete s (all_reports local_id laddrs max streams)
  unfolding request_all all_reports run
  request_all-run local_id laddrs max [] s = refl
  request_all-run local_id laddrs max (opened ∷ others) s =
      let t = (autonat_request N C local_id laddrs max opened s).1 in
      request_all-run local_id laddrs max others t
      ∙ ap (λ u. run N.addr_discrete u (all_reports local_id laddrs max others))
          (autonat_request-run local_id laddrs max opened s)
      ∙ sym (
          run-append s (reports_of local_id laddrs max opened)
            (all_reports local_id laddrs max others))

  -- Requests to peers, one after another, whatever the peers answer: what the node takes its network
  -- for is the verdict on what the answers report. An answer reports a failed dial by a status that is
  -- known and is not `OK`, and a successful one by any other status together with an address; an
  -- answer that is cut off, is too long or is none reports nothing.
  pub request_all-verdict :
      (local_id : N.PeerId) (laddrs : List (Addr N)) (max : ℕ)
      (streams : List (Result Io (Failure N)))
      → (request_all N C local_id laddrs max streams (start N.addr_discrete)).network
        ≡ verdict N.addr_discrete 0 0 (all_reports local_id laddrs max streams)
  request_all-verdict local_id laddrs max streams =
      ap (λ s. s.network) (request_all-run local_id laddrs max streams (start N.addr_discrete))
      ∙ network-verdict N.addr_discrete (all_reports local_id laddrs max streams)
