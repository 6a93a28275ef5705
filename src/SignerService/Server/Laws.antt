-- ===== src/SignerService/Server/Laws.antt =====
-- What the service answers to a request to /v1/sign-unbonding-tx.
use covenant_signer.Prelude.{
  ℕ, ◌≡◌, refl, ap, sym, subst, ◌∙◌, ◌⊎◌, inl, inr, arith, false, Bool-cases,
}
use covenant_signer.Prelude.Int.{pos, ltb_ℤ, ◌<ℤ◌, ◌≤ℤ◌}
use covenant_signer.Go.Text.{str}
use covenant_signer.Go.Hex.{encode_to_string}
use covenant_signer.Go.Outcome.{GoError, Outcome, ok, ok-injective, err, panicked}
use covenant_signer.Go.Exec.{lift, continue}
use covenant_signer.Btc.{Btc, Staking}
use covenant_signer.SignerApp.Signer.{SignerApp, sign_unbonding_transaction}
use covenant_signer.Observability.Metrics.{CovenantSignerMetrics, inc_received_signing_requests}
use covenant_signer.SignerService.Types.{Error, new_error_with_msg}
use covenant_signer.SignerService.Http.{
  Request, Response, Body, Json, http_error, has_status_text, max_bytes_reader, public_response,
}
use covenant_signer.SignerService.Handlers.{
  Handled, Handling, Result, result, failed, State, Arguments, decode_request, finish,
  sign_arguments, sign_unbonding, signing_error,
}
use covenant_signer.SignerService.Responses.{respond, register_handler, write_response}
use covenant_signer.SignerService.Handlers.Decoding.{decode_request_refusal}
use covenant_signer.SignerService.Responses.Laws.{respond-200}
use covenant_signer.SignerService.Server.{serve}

failed-injective : {e f : Error} → Path (Handled Result) (failed e) (failed f) → e ≡ f
failed-injective h = cc

signing_error-status :
    (e : GoError) → ((signing_error e).status_code ≡ 400) ⊎ ((signing_error e).status_code ≡ 500)
unfolding signing_error new_error_with_msg
signing_error-status e = ground arith

module _ {btc : Btc} (staking : Staking btc) (json : Json) {W : Type 0}
    (app : SignerApp btc W) where
  -- The handler's part of a response with status 200
  abbrev pub Answers200 : Body → W → Response → State W → Type 0
  Answers200 body w res s' =
      (args : Arguments btc) × (sig : btc.Signature) × (decode_request btc json body
        ≡ ok (result args))
      × (sign_unbonding_transaction staking app args.pk_script args.unbonding_tx
            args.staker_unbonding_sig args.covenant_public_key w
          ≡ (ok sig, s'.1))
      × (res
          ≡ write_response json 200 (
              public_response
                (record { signature_hex = encode_to_string (btc.serialize_signature sig) })))

  finish-200 :
      (m : CovenantSignerMetrics) (x : Outcome btc.Signature × W) (res : Response) (s' : State W)
      → continue (finish btc m x).0 (λ h. lift (ok (respond json h))) (finish btc m x).1
        ≡ (ok res, s')
      → res.status ≡ 200
      → (sig : btc.Signature) × (x ≡ (ok sig, s'.1))
        × (res
            ≡ write_response json 200 (
                public_response
                  (record { signature_hex = encode_to_string (btc.serialize_signature sig) })))
  unfolding finish respond has_status_text
  finish-200 m (ok sig, w) res s' h status =
      (sig, ap (λ z. (ok sig, z.1.1)) h, sym (ok-injective (ap (λ z. z.0) h)))
  finish-200 m (err e, w) res s' h status =
      let same = ok-injective (ap (λ z. z.0) h) in
      let codes = λ (x : Error) (p : Path (Handled Result) (failed (signing_error e)) (failed x)).
        subst (λ (y : Error). (y.status_code ≡ 400) ⊎ (y.status_code ≡ 500)) (failed-injective p)
          (signing_error-status e) in
      let (r, wrong) =
        respond-200 json (failed (signing_error e)) codes (ap (λ z. z.status) same ∙ status) in
      cc
  finish-200 m (panicked t, w) res s' h status = cc

  arguments-200 :
      (decoded : Handling (Arguments btc)) (body : Body) (m : CovenantSignerMetrics) (w : W)
      (res : Response) (s' : State W)
      → decode_request btc json body ≡ decoded
      → continue
          (sign_arguments staking json app decoded (m, w)).0
          (λ h. lift (ok (respond json h)))
          (sign_arguments staking json app decoded (m, w)).1
        ≡ (ok res, s')
      → res.status ≡ 200
      → Answers200 body w res s'
  unfolding sign_arguments
  arguments-200 (err e) body m w res s' d h status = cc
  arguments-200 (panicked t) body m w res s' d h status = cc
  arguments-200 (ok (failed e)) body m w res s' d h status =
      let same = ok-injective (ap (λ z. z.0) h) in
      let bad = decode_request_refusal btc json body e d in
      let codes = λ (x : Error) (p : Path (Handled Result) (failed e) (failed x)).
        subst (λ (y : Error). (y.status_code ≡ 400) ⊎ (y.status_code ≡ 500)) (failed-injective p)
          (inl bad.0) in
      let (r, wrong) = respond-200 json (failed e) codes (ap (λ z. z.status) same ∙ status) in cc
  arguments-200 (ok (result args)) body m w res s' d h status =
      let (sig, signed, written) =
        finish-200 (inc_received_signing_requests m)
          (sign_unbonding_transaction staking app args.pk_script args.unbonding_tx
            args.staker_unbonding_sig args.covenant_public_key w)
          res s' h status in
      (args, sig, d, signed, written)

module _ {btc : Btc} (staking : Staking btc) (json : Json) {W : Type 0} (app : SignerApp btc W)
    (max_content_length : ℕ) where
  -- A request whose declared length is over the limit is answered with 413, and nothing else
  -- happens.
  pub serve_too_large :
      (request : Request) (s : State W)
      → pos max_content_length <ℤ request.content_length
      → serve staking json app max_content_length request s
        ≡ (ok (http_error (str "Request Entity Too Large") 413), s)
  unfolding serve
  serve_too_large request s h = ground arith

  -- Any other request goes to the handler, whose reader of the body is limited.
  pub serve_within :
      (request : Request) (s : State W)
      → request.content_length ≤ℤ pos max_content_length
      → serve staking json app max_content_length request s
        ≡ register_handler json
            (sign_unbonding staking json app)
            (record request { body = max_bytes_reader max_content_length request.body })
            s
  unfolding serve
  serve_within request s h =
      let within : ltb_ℤ (pos max_content_length) request.content_length ≡ false = ground arith in
      rw within

  -- A response with status 200 carries a signature that the signer returned for the arguments
  -- that the request's limited body decodes to.
  pub serve-200 :
      (request : Request) (m : CovenantSignerMetrics) (w : W) (res : Response) (s' : State W)
      → serve staking json app max_content_length request (m, w) ≡ (ok res, s')
      → res.status ≡ 200
      → Answers200 staking json app (max_bytes_reader max_content_length request.body) w res s'
  unfolding http_error
  serve-200 request m w res s' h status =
      elim (Bool-cases (ltb_ℤ (pos max_content_length) request.content_length)) [
        | inl large ↦
            let refused = sym (serve_too_large request (m, w) (ground arith)) ∙ h in
            let same = ok-injective (ap (λ z. z.0) refused) in
            let code : ◌≡◌ {A = ℕ} 413 200 = ap (λ z. z.status) same ∙ status in
            absurd (omega arith)
        | inr within ↦
            let body = max_bytes_reader max_content_length request.body in
            let handled = sym (serve_within request (m, w) (ground arith)) ∙ h in
            arguments-200 staking json app (decode_request btc json body) body m w res s' refl
              (unfold register_handler sign_unbonding in handled) status
      ]
