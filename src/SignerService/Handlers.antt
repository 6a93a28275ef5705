-- ===== src/SignerService/Handlers.antt =====
-- signerservice/handlers: the handler of a signing request.
pub mod Counters
pub mod Decoding
pub mod Interleavings
use covenant_signer.Prelude.{ℕ, if◌then◌else◌}
use covenant_signer.Go.Text.{GoString, Bytes, str}
use covenant_signer.Go.Hex.{encode_to_string, decode_string}
use covenant_signer.Go.Outcome.{
  GoError, message, is_invalid_signing_request, Outcome, ok, err, panicked, or_err, Reply, answer,
  failure,
}
use covenant_signer.Go.Outcome
use covenant_signer.Go.Exec.{Exec}
use covenant_signer.Btc.{Btc, Staking}
use covenant_signer.Utils.{new_btc_tx_from_hex}
use covenant_signer.SignerApp.Signer.{SignerApp, sign_unbonding_transaction}
use covenant_signer.Observability.Metrics.{
  CovenantSignerMetrics, inc_received_signing_requests, inc_successful_signing_requests,
  inc_failed_signing_requests,
}
use covenant_signer.SignerService.Types.{
  SignUnbondingTxRequest, SignUnbondingTxResponse, Error, bad_request, internal_service_error,
  new_error_with_msg,
}
use covenant_signer.SignerService.Http.{Body, Request, Payload, public_response, Json}

-- The two results of a handler, of which one is nil.
pub data Handled (A : Type 0) : Type 0 where
  result : A → Handled A
  failed : Error → Handled A

abbrev pub Handling : Type 0 → Type 0
Handling A = Outcome (Handled A)

infixl 5 ◌>>=◌
abbrev pub ◌>>=◌ : {A B : Type 0} → Handling A → (A → Handling B) → Handling B
ok (result a) >>= f = f a
ok (failed e) >>= f = ok (failed e)
err e >>= f = err e
panicked t >>= f = panicked t

-- `Result`
pub record Result : Type 0 where
  pub content : Payload
  pub status : ℕ

unfoldable pub new_result : SignUnbondingTxResponse → Result
new_result response = record { content = public_response response; status = 200 }

-- An argument that does not decode is a bad request with this text.
abbrev pub or_bad_request : {A : Type 0} → GoString → Outcome A → Handling A
or_bad_request text (ok a) = ok (result a)
or_bad_request text (err e) = ok (failed (new_error_with_msg 400 bad_request text))
or_bad_request text (panicked t) = panicked t

-- `parseSchnorrSigFromHex`
unfoldable pub parse_schnorr_sig_from_hex : (btc : Btc) → GoString → Outcome btc.Signature
parse_schnorr_sig_from_hex btc hex_str =
    Outcome.◌>>=◌ (decode_string hex_str) λ sig_bytes. or_err (btc.parse_signature sig_bytes)

-- The arguments of `SignUnbondingTransaction`
pub record Arguments (btc : Btc) : Type 0 where
  pub pk_script : Bytes
  pub covenant_public_key : btc.PublicKey
  pub unbonding_tx : btc.MsgTx
  pub staker_unbonding_sig : btc.Signature

unfoldable pub decode_arguments : (btc : Btc) → SignUnbondingTxRequest → Handling (Arguments btc)
unfolding parse_schnorr_sig_from_hex
decode_arguments btc payload = do
  pk_script ←
      or_bad_request (str "invalid staking output pk script")
        (decode_string payload.staking_output_pk_script_hex)
  covenant_public_key_bytes ←
      or_bad_request (str "invalid covenant public key") (decode_string payload.covenant_public_key)
  covenant_public_key ←
      or_bad_request (str "invalid covenant public key")
        (or_err (btc.parse_pub_key covenant_public_key_bytes))
  unbonding_tx ←
      or_bad_request (str "invalid unbonding transaction")
        (new_btc_tx_from_hex btc payload.unbonding_tx_hex)
  staker_unbonding_sig ←
      or_bad_request (str "invalid staker unbonding signature")
        (parse_schnorr_sig_from_hex btc payload.staker_unbonding_sig_hex)
  ok (
      result (record {
        pk_script = pk_script;
        covenant_public_key = covenant_public_key;
        unbonding_tx = unbonding_tx.0;
        staker_unbonding_sig = staker_unbonding_sig;
      }))

unfoldable pub decode_request : (btc : Btc) → Json → Body → Handling (Arguments btc)
unfolding decode_arguments
decode_request btc json body = do
  payload ← or_bad_request (str "invalid request payload") (or_err (json.decode_request body))
  decode_arguments btc payload

-- The status and the text for an error of `SignUnbondingTransaction`
unfoldable pub signing_error : GoError → Error
signing_error e =
    if is_invalid_signing_request e
    then new_error_with_msg 400 bad_request (message e)
    else new_error_with_msg 500 internal_service_error (message e)

-- The counters beside the world of the nodes
abbrev pub State : Type 0 → Type 0
State W = CovenantSignerMetrics × W

module _ (btc : Btc) {W : Type 0} where
  -- What follows the call of `SignUnbondingTransaction`
  unfoldable pub finish :
      CovenantSignerMetrics → Outcome btc.Signature × W → Outcome (Handled Result) × State W
  unfolding signing_error new_result
  finish m (ok sig, w) = (
    ok (
        result
          (new_result (record { signature_hex = encode_to_string (btc.serialize_signature sig) }))),
    (inc_successful_signing_requests m, w),
  )
  finish m (err e, w) = (ok (failed (signing_error e)), (inc_failed_signing_requests m, w))
  finish m (panicked t, w) = (panicked t, (m, w))

module _ {btc : Btc} (staking : Staking btc) (json : Json) {W : Type 0}
    (app : SignerApp btc W) where
  -- The call and what follows, for arguments that decode
  unfoldable pub sign_arguments : Handling (Arguments btc) → Exec (State W) (Handled Result)
  unfolding finish
  sign_arguments (err e) (m, w) = (err e, (m, w))
  sign_arguments (panicked t) (m, w) = (panicked t, (m, w))
  sign_arguments (ok (failed e)) (m, w) = (ok (failed e), (m, w))
  sign_arguments (ok (result args)) (m, w) = finish btc (inc_received_signing_requests m) (
      sign_unbonding_transaction staking app args.pk_script args.unbonding_tx
        args.staker_unbonding_sig args.covenant_public_key w)

  -- `SignUnbonding`
  unfoldable pub sign_unbonding : Request → Exec (State W) (Handled Result)
  unfolding sign_arguments
  sign_unbonding request = sign_arguments (decode_request btc json request.body)
