-- ===== src/SignerService/Client.antt =====
-- signerservice/client.go
pub mod Network
pub mod Delivery
pub mod Soundness
use covenant_signer.Prelude.{
  ℕ, Bool, not, Option, none, List, ◌++◌, ◌==◌, ◌^◌, ltb, length, if◌then◌else◌,
}
use covenant_signer.Prelude.Int.{ℤ, pos}
use covenant_signer.Go.Text.{GoString, Bytes, str, decimal}
use covenant_signer.Go.Hex.{encode_to_string}
use covenant_signer.Go.Outcome.{Outcome, ok, err, new, or_err, fail_if, Reply}
use covenant_signer.Go.Outcome
use covenant_signer.Go.Exec.{Exec, Call, call, lift, ◌>>=◌, ◌>>◌}
use covenant_signer.Btc.{Btc}
use covenant_signer.Utils.{serialize_btc_tx_to_hex, schnor_signature_from_hex}
use covenant_signer.SignerService.Types.{SignUnbondingTxRequest, SignUnbondingTxResponse}
use covenant_signer.SignerService.Http.{Response, Json}

-- `maxResponseSize`, 1 MB
abbrev pub max_response_size : ℕ
max_response_size = 2 ^ 20

-- `http.NewRequestWithContext` with POST, and `http.Client.Do`: the URL and the body of a request,
-- and the response that arrives.
pub record Transport (W : Type 0) : Type 1 where
  pub HttpRequest : Type 0
  pub new_request : GoString → Bytes → Reply HttpRequest
  pub do_request : HttpRequest → Call W Response

-- `io.ReadAll` of an `http.MaxBytesReader`
unfoldable pub read_all_max : ℕ → Bytes → Outcome Bytes
read_all_max max body =
    if ltb max (length body) then err (new (str "http: request body too large")) else ok body

module _ (btc : Btc) where
  unfoldable pub signing_payload :
      GoString → btc.Signature → btc.PublicKey → Bytes → SignUnbondingTxRequest
  signing_payload unbonding_tx_hex staker_sig key pk_script = record {
    staking_output_pk_script_hex = encode_to_string pk_script;
    unbonding_tx_hex = unbonding_tx_hex;
    staker_unbonding_sig_hex = encode_to_string (btc.serialize_signature staker_sig);
    covenant_public_key = encode_to_string (btc.serialize_compressed key);
  }

module _ (btc : Btc) (json : Json) where
  -- From the response to the signature
  unfoldable pub read_response : Response → Outcome btc.Signature
  unfolding read_all_max
  read_response res = Outcome.◌>>=◌ (read_all_max max_response_size res.body) λ res_body.
      Outcome.◌>>◌
        (fail_if (not (res.status == 200)) (
          new (
            str "signing request failed. status code: "
            ++ (decimal res.status ++ (str ", message: " ++ res_body)))))
        (Outcome.◌>>=◌ (or_err (json.unmarshal_response res_body))
          λ response. schnor_signature_from_hex btc response.signature_hex)

  -- `RequestCovenantSignaure`
  unfoldable pub request_covenant_signaure :
      {W : Type 0}
      → Transport W
      → GoString
      → btc.MsgTx
      → btc.Signature
      → btc.PublicKey
      → Bytes
      → Exec W btc.Signature
  unfolding read_response
  request_covenant_signaure transport signer_url unbonding_tx staker_sig key pk_script = do
    unbonding_tx_hex ← lift (serialize_btc_tx_to_hex btc unbonding_tx)
    marshalled ← lift (
        or_err
          (json.marshal_request (signing_payload btc unbonding_tx_hex staker_sig key pk_script)))
    http_request ←
        lift (or_err (transport.new_request (signer_url ++ str "/v1/sign-unbonding-tx") marshalled))
    res ← call (transport.do_request http_request)
    lift (read_response res)
