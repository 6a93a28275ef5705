-- ===== src/SignerService/Handlers/Decoding.antt =====
-- What the handler says of a request whose arguments do not decode.
use covenant_signer.Prelude.{◌≡◌, refl}
use covenant_signer.Go.Text.{GoString, str}
use covenant_signer.Go.Hex.{decode_string}
use covenant_signer.Go.Outcome.{Outcome, ok, err, panicked, or_err}
use covenant_signer.Btc.{Btc}
use covenant_signer.Utils.{new_btc_tx_from_hex}
use covenant_signer.SignerService.Types.{
  SignUnbondingTxRequest, Error, new_error_with_msg, bad_request,
}
use covenant_signer.SignerService.Http.{Body, Json}
use covenant_signer.SignerService.Handlers.{
  Handling, result, failed, or_bad_request, decode_arguments, decode_request,
  parse_schnorr_sig_from_hex, ◌>>=◌,
}

-- A refusal is a bad request, with status 400.
abbrev pub IsBadRequest : Error → Type 0
IsBadRequest e = (e.status_code ≡ 400) × (e.error_code ≡ bad_request)

abbrev pub RefusesBad : {A : Type 0} → Handling A → Type 0
RefusesBad {A} m = (e : Error) → Path (Handling A) m (ok (failed e)) → IsBadRequest e

bad_request≢nil : (text : GoString) → IsBadRequest (new_error_with_msg 400 bad_request text)
unfolding new_error_with_msg bad_request str
bad_request≢nil text = (refl, refl)

or_bad_request-RefusesBad :
    {A : Type 0} (text : GoString) (m : Outcome A) → RefusesBad (or_bad_request text m)
or_bad_request-RefusesBad text (ok a) e h = cc
or_bad_request-RefusesBad text (err x) e h =
    let same : new_error_with_msg 400 bad_request text ≡ e = cc in
    rw (← same) (bad_request≢nil text)
or_bad_request-RefusesBad text (panicked t) e h = cc

bind-RefusesBad :
    {A B : Type 0} (m : Handling A) (f : A → Handling B)
    → RefusesBad m
    → ((a : A) → RefusesBad (f a))
    → RefusesBad (m >>= f)
bind-RefusesBad (ok (result a)) f hm hf e h = hf a e h
bind-RefusesBad (ok (failed x)) f hm hf e h = let same : x ≡ e = cc in rw (← same) (hm x refl)
bind-RefusesBad (err x) f hm hf e h = cc
bind-RefusesBad (panicked t) f hm hf e h = cc

module _ (btc : Btc) where
  decode_arguments-RefusesBad :
      (payload : SignUnbondingTxRequest) → RefusesBad (decode_arguments btc payload)
  unfolding decode_arguments
  decode_arguments-RefusesBad payload =
      bind-RefusesBad
        (or_bad_request (str "invalid staking output pk script")
          (decode_string payload.staking_output_pk_script_hex))
        _ (or_bad_request-RefusesBad _ (decode_string payload.staking_output_pk_script_hex))
        λ script.
          bind-RefusesBad
            (or_bad_request (str "invalid covenant public key")
              (decode_string payload.covenant_public_key))
            _ (or_bad_request-RefusesBad _ (decode_string payload.covenant_public_key))
            λ bytes.
              bind-RefusesBad
                (or_bad_request (str "invalid covenant public key")
                  (or_err (btc.parse_pub_key bytes)))
                _ (or_bad_request-RefusesBad _ (or_err (btc.parse_pub_key bytes)))
                λ key.
                  bind-RefusesBad
                    (or_bad_request (str "invalid unbonding transaction")
                      (new_btc_tx_from_hex btc payload.unbonding_tx_hex))
                    _
                    (or_bad_request-RefusesBad _ (new_btc_tx_from_hex btc payload.unbonding_tx_hex))
                    λ tx.
                      bind-RefusesBad
                        (or_bad_request (str "invalid staker unbonding signature")
                          (parse_schnorr_sig_from_hex btc payload.staker_unbonding_sig_hex))
                        _
                        (or_bad_request-RefusesBad _
                          (parse_schnorr_sig_from_hex btc payload.staker_unbonding_sig_hex))
                        λ sig e h. cc

  decode_request-RefusesBad :
      (json : Json) (body : Body) → RefusesBad (decode_request btc json body)
  unfolding decode_request
  decode_request-RefusesBad json body =
      bind-RefusesBad
        (or_bad_request (str "invalid request payload") (or_err (json.decode_request body))) _
        (or_bad_request-RefusesBad _ (or_err (json.decode_request body)))
        λ payload. decode_arguments-RefusesBad payload

  -- A request whose arguments are refused is a bad request: the error has status 400 and the
  -- code BAD_REQUEST.
  pub decode_request_refusal :
      (json : Json) (body : Body) (e : Error)
      → decode_request btc json body ≡ ok (failed e)
      → (e.status_code ≡ 400) × (e.error_code ≡ bad_request)
  decode_request_refusal json body e h = decode_request-RefusesBad json body e h
