-- ===== src/Tests/AutoNat.antt =====
-- The autonat client among peers that answer.
use xstack.Base.{ℕ, zero, false, ◌≡◌, List, [], ◌∷◌, none, some}
use xstack.Base.Result.{Result, ok, err}
use xstack.Error.{timeout}
use xstack.Rpc.{Io}
use xstack.AutoNat.{start}
use xstack.AutoNat.Verdict.{verdict}
use xstack.AutoNat.Client.{DialMessage, Codec, request_all}
use xstack.AutoNat.Client.Reports.{all_reports, request_all-verdict}
use xstack.Switch.State.{Failure}
use xstack.Tests.Node.{here, net}

-- The first byte tells a dial that succeeded from one that did not.
abbrev answer_of : List ℕ → DialMessage
answer_of (zero ∷ rest) = record {
  kind = some 1;
  dial = none;
  dial_response = some (record { status = some 0; addr = some (1 ∷ []) });
}
answer_of _ = record {
  kind = some 1;
  dial = none;
  dial_response = some (record { status = some 100; addr = none });
}

abbrev codec : Codec net
codec = record {
  write = λ _. ok (6 ∷ []);
  parse = λ bytes. ok (answer_of bytes);
  to_bytes = λ id. id ∷ [];
}

abbrev answering : ℕ → Result Io (Failure net)
answering n = ok (record { input = 1 ∷ n ∷ []; output = []; is_closed = false })

abbrev streams : List (Result Io (Failure net))
streams = answering 0 ∷ answering 1 ∷ err timeout ∷ answering 0 ∷ answering 0 ∷ answering 1 ∷ []

request_all-verdict_example :
    (request_all net codec 5 (here ∷ []) 10 streams (start net.addr_discrete)).network
    ≡ verdict net.addr_discrete 0 0 (all_reports net codec 5 (here ∷ []) 10 streams)
request_all-verdict_example = request_all-verdict net codec 5 (here ∷ []) 10 streams
