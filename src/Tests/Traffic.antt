-- ===== src/Tests/Traffic.antt =====
-- Two requests at once: both are counted, then the first ends and the second panics.
use covenant_signer.Prelude.{ℕ, ◌≡◌, refl, [], ◌∷◌, arith}
use covenant_signer.Go.Outcome.{ok, panicked}
use covenant_signer.SignerService.Handlers.{decode_request, decode_arguments, Arguments, result}
use covenant_signer.SignerService.Handlers.Interleavings.{
  Traffic, arrived, ended, quiet, IsAccounted, arrives, ends, Run, still, then, Run-IsAccounted,
}
use covenant_signer.SignerService.Types.{SignUnbondingTxRequest}
use covenant_signer.SignerService.Http.{Body, Json}
use covenant_signer.Observability.Metrics.{no_requests}
use covenant_signer.Go.Hex.{encode_to_string}
use covenant_signer.Go.Outcome.{answer}
use covenant_signer.SignerService.Client.{signing_payload}
use covenant_signer.SignerService.Client.Delivery.{decode_arguments-payload}
use covenant_signer.Tests.Chain.{staker, covenant_2, toy_btc, toy_staking}
use covenant_signer.Tests.Codec.{toy_json, toy_codec}
use covenant_signer.Tests.Service.{request, metrics, sent, tx_bytes}
use covenant_signer.Tests.Signing.{app, unbonding_tx}

abbrev args : Arguments toy_btc
args = record {
  pk_script = 5 ∷ [];
  covenant_public_key = covenant_2;
  unbonding_tx = unbonding_tx;
  staker_unbonding_sig = staker;
}

given : toy_json.decode_request request.body ≡ answer sent
unfolding signing_payload encode_to_string
given = refl

decode_request_lem :
    (json : Json) (body : Body) (p : SignUnbondingTxRequest) (arguments : Arguments toy_btc)
    → json.decode_request body ≡ answer p
    → decode_arguments toy_btc p ≡ ok (result arguments)
    → decode_request toy_btc json body ≡ ok (result arguments)
unfolding decode_request
decode_request_lem json body p arguments h d = rw (h, d)

decodes : decode_request toy_btc toy_json request.body ≡ ok (result args)
decodes = decode_request_lem toy_json request.body sent args given (
    decode_arguments-payload toy_staking toy_json toy_codec app unbonding_tx staker covenant_2
      (5 ∷ []) tx_bytes (omega arith, tt) refl)

abbrev start : Traffic toy_btc ℕ
start = quiet metrics 0

abbrev both : Traffic toy_btc ℕ
both = arrived args (arrived args start)

abbrev one : Traffic toy_btc ℕ
one = ended (ok covenant_2, 1) (args ∷ []) both

abbrev left : Traffic toy_btc ℕ
left = ended (panicked [], 2) [] one

two_requests : Run toy_json start left
two_requests =
    then start one left
      (then start both one
        (then start (arrived args start) both
          (then start start (arrived args start) (still start) (arrives request args start decodes))
          (arrives request args (arrived args start) decodes))
        (ends (args ∷ []) args [] (ok covenant_2, 1) both refl))
      (ends [] args [] (panicked [], 2) one refl)

start-IsAccounted : IsAccounted start
unfolding no_requests
start-IsAccounted = refl

Run-IsAccounted_example : IsAccounted left
Run-IsAccounted_example = Run-IsAccounted toy_json start left two_requests start-IsAccounted
