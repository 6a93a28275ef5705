-- ===== src/Tests/Service.antt =====
-- Runs of the service and of its client on the small chain.
use covenant_signer.Prelude.{ℕ, ◌≤◌, ◌≡◌, refl, ap, sym, ◌∙◌, none, [], ◌∷◌, arith, length}
use covenant_signer.Go.Text.{Bytes, str}
use covenant_signer.Go.Hex.{digit, encode_to_string}
use covenant_signer.Go.Outcome.{ok, new, NoPanic, answer}
use covenant_signer.Utils.{serialize_btc_tx, serialize_btc_tx_to_hex, new_btc_tx_from_hex}
use covenant_signer.Utils.Laws.{new_btc_tx_from_hex-serialize_btc_tx_to_hex}
use covenant_signer.SignerApp.Signer.{SignerApp, sign_unbonding_transaction}
use covenant_signer.Observability.Metrics.{
  CovenantSignerMetrics, no_requests, inc_received_signing_requests,
  inc_successful_signing_requests,
}
use covenant_signer.SignerService.Types.{SignUnbondingTxRequest}
use covenant_signer.SignerService.Http.{max_bytes_reader, Body, Request, Response}
use covenant_signer.SignerService.Handlers.{failed, sign_unbonding}
use covenant_signer.SignerService.Handlers.Counters.{Counted, sign_unbonding-Counted}
use covenant_signer.SignerService.Responses.{respond}
use covenant_signer.SignerService.Responses.Laws.{respond-hides}
use covenant_signer.SignerService.Server.{serve}
use covenant_signer.SignerService.Server.Laws.{serve_within}
use covenant_signer.SignerService.Client.{
  signing_payload, max_response_size, request_covenant_signaure,
}
use covenant_signer.SignerService.Client.Network.{posted}
use covenant_signer.SignerService.Client.Delivery.{
  sign_unbonding-signed, finish_signed, loop_back, request_covenant_signaure-delivers,
}
use covenant_signer.Tests.Chain.{staker, covenant_2, toy_btc, toy_staking}
use covenant_signer.Tests.Codec.{toy_json, write_request, toy_codec, toy_tx_lem}
use covenant_signer.Tests.Signing.{app, unbonding_tx, sign_run}

abbrev pub tx_bytes : Bytes
tx_bytes = 42 ∷ 0 ∷ 200 ∷ 50 ∷ []

-- The payload for the small chain's unbonding transaction
abbrev pub sent : SignUnbondingTxRequest
sent = signing_payload toy_btc (encode_to_string tx_bytes) staker covenant_2 (5 ∷ [])

abbrev pub metrics : CovenantSignerMetrics
metrics = no_requests

pub sent_fits : length (write_request sent) ≤ 8192
unfolding signing_payload encode_to_string digit
sent_fits = omega arith

pub response_fits : length (encode_to_string (2 ∷ [])) ≤ max_response_size
unfolding encode_to_string digit
response_fits = omega arith

request_covenant_signaure-delivers_example :
    request_covenant_signaure toy_btc toy_json
      (loop_back toy_staking toy_json toy_codec app [] 8192)
      []
      unbonding_tx
      staker
      covenant_2
      (5 ∷ [])
      (metrics, 0)
    ≡ (ok covenant_2, (inc_successful_signing_requests (inc_received_signing_requests metrics), 1))
request_covenant_signaure-delivers_example =
    request_covenant_signaure-delivers toy_staking toy_json toy_codec app unbonding_tx staker
      covenant_2 (5 ∷ []) tx_bytes (omega arith, tt) refl 8192 [] metrics 0 1 covenant_2
      (write_request sent) (encode_to_string (2 ∷ [])) refl sent_fits sign_run refl response_fits

new_btc_tx_from_hex-serialize_btc_tx_to_hex_example :
    (b : Bytes) × (toy_btc.serialize_tx unbonding_tx ≡ answer b)
    × (new_btc_tx_from_hex toy_btc (encode_to_string tx_bytes) ≡ ok (unbonding_tx, b))
unfolding serialize_btc_tx_to_hex serialize_btc_tx
new_btc_tx_from_hex-serialize_btc_tx_to_hex_example =
    new_btc_tx_from_hex-serialize_btc_tx_to_hex toy_btc (λ tx b h. (toy_tx_lem tx b h).0)
      (λ tx b h. (toy_tx_lem tx b h).1) unbonding_tx (encode_to_string tx_bytes) refl

abbrev pub request : Request
request = posted (write_request sent)

abbrev pub served : Response
served = record {
  status = 200;
  content_type = str "application/json";
  body = encode_to_string (2 ∷ []);
}

-- A signing application that signs for the client's arguments serves them.
pub serve_signed :
    (signer : SignerApp toy_btc ℕ) (w : ℕ)
    → sign_unbonding_transaction toy_staking signer (5 ∷ []) unbonding_tx staker covenant_2 0
      ≡ (ok covenant_2, w)
    → serve toy_staking toy_json signer 8192 request (metrics, 0)
      ≡ (ok served, (inc_successful_signing_requests (inc_received_signing_requests metrics), w))
unfolding max_bytes_reader signing_payload
serve_signed signer w signs =
    serve_within toy_staking toy_json signer 8192 request (metrics, 0) (omega (arith, sent_fits))
    ∙ finish_signed toy_staking toy_json toy_codec signer unbonding_tx staker covenant_2 (5 ∷ [])
        tx_bytes (omega arith, tt) refl metrics 0 w covenant_2 (encode_to_string (2 ∷ [])) signs
        refl (record request { body = max_bytes_reader 8192 request.body })
        (toy_codec.request sent (write_request sent) 8192 refl sent_fits)

-- A body with an empty key
abbrev keyless : Body
keyless = record {
  content = write_request (record {
    staking_output_pk_script_hex = [];
    unbonding_tx_hex = [];
    staker_unbonding_sig_hex = [];
    covenant_public_key = [];
  });
  limit = none;
}

sign_unbonding-Counted_example :
    Counted toy_staking toy_json app request metrics 0
      (sign_unbonding toy_staking toy_json app request (metrics, 0))
sign_unbonding-Counted_example = sign_unbonding-Counted toy_staking toy_json app request metrics 0

-- The handler returns for that request.
handler_run : NoPanic (sign_unbonding toy_staking toy_json app request (metrics, 0)).0
unfolding signing_payload encode_to_string
handler_run t h =
    let signed =
      sign_unbonding-signed toy_staking toy_json toy_codec app unbonding_tx staker covenant_2
        (5 ∷ []) tx_bytes (omega arith, tt) refl metrics 0 1 covenant_2 sign_run request refl in
    let wrong = sym (ap (λ x. x.0) signed) ∙ h in cc

respond-hides_example :
    respond toy_json (failed (record { err = new (1 ∷ []); status_code = 500; error_code = [] }))
    ≡ respond toy_json (failed (record { err = new (2 ∷ []); status_code = 500; error_code = [] }))
respond-hides_example = respond-hides toy_json [] 500 (new (1 ∷ [])) (new (2 ∷ [])) (omega arith)
