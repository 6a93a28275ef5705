-- ===== src/SignerService/Handlers/Counters.antt =====
-- The counters of the handler: every request that decodes is counted as received and, unless the
-- handler panics, as one of successful and failed.
use covenant_signer.Prelude.{
  bytes_equal, ◌+◌, ◌≡◌, refl, ◌⊎◌, inl, inr, arith, true, false, Bool-cases,
}
use covenant_signer.Go.Text.{str}
use covenant_signer.Go.Hex.{encode_to_string}
use covenant_signer.Go.Outcome.{
  GoError, message, is_invalid_signing_request, Outcome, ok, err, panicked, NoPanic,
}
use covenant_signer.Btc.{Btc, Staking}
use covenant_signer.SignerApp.Signer.{SignerApp, sign_unbonding_transaction}
use covenant_signer.Observability.Metrics.{
  CovenantSignerMetrics, inc_received_signing_requests, inc_successful_signing_requests,
  inc_failed_signing_requests,
}
use covenant_signer.SignerService.Http.{Request, Json, public_response}
use covenant_signer.SignerService.Types.{
  Error, bad_request, internal_service_error, error_text, new_error, new_error_with_msg,
}
use covenant_signer.SignerService.Handlers.{
  Handled, Handling, Result, result, failed, State, Arguments, decode_request, finish,
  signing_error, new_result, sign_arguments, sign_unbonding,
}

-- Every request received has been answered.
abbrev pub IsBalanced : CovenantSignerMetrics → Type 0
IsBalanced m =
    m.received_signing_requests ≡ m.successful_signing_requests + m.failed_signing_requests

module _ (btc : Btc) {W : Type 0} where
  finish-IsBalanced :
      (m : CovenantSignerMetrics) (x : Outcome btc.Signature × W)
      → IsBalanced m
      → NoPanic (finish btc (inc_received_signing_requests m) x).0
      → IsBalanced (finish btc (inc_received_signing_requests m) x).1.0
  unfolding finish inc_received_signing_requests inc_successful_signing_requests
      inc_failed_signing_requests
  finish-IsBalanced m (ok sig, w) h none = omega arith
  finish-IsBalanced m (err e, w) h none = omega arith
  finish-IsBalanced m (panicked t, w) h none = absurd (none t refl)

module _ {btc : Btc} (staking : Staking btc) (json : Json) {W : Type 0}
    (app : SignerApp btc W) where
  sign_arguments-IsBalanced :
      (args : Handling (Arguments btc)) (m : CovenantSignerMetrics) (w : W)
      → IsBalanced m
      → NoPanic (sign_arguments staking json app args (m, w)).0
      → IsBalanced (sign_arguments staking json app args (m, w)).1.0
  unfolding sign_arguments
  sign_arguments-IsBalanced (err e) m w h none = h
  sign_arguments-IsBalanced (panicked t) m w h none = h
  sign_arguments-IsBalanced (ok (failed e)) m w h none = h
  sign_arguments-IsBalanced (ok (result args)) m w h none = finish-IsBalanced btc m _ h none

  -- A call of the handler that does not panic keeps the number of received requests equal to
  -- that of the successful and the failed ones.
  pub sign_unbonding-IsBalanced :
      (request : Request) (m : CovenantSignerMetrics) (w : W)
      → IsBalanced m
      → NoPanic (sign_unbonding staking json app request (m, w)).0
      → IsBalanced (sign_unbonding staking json app request (m, w)).1.0
  unfolding sign_unbonding
  sign_unbonding-IsBalanced request m w h none =
      sign_arguments-IsBalanced (decode_request btc json request.body) m w h none

  -- How a call of the handler ends: with the arguments refused and nothing counted, or with what
  -- `finish` makes of the signer's outcome.
  abbrev pub Finished :
      Request → CovenantSignerMetrics → W → Outcome (Handled Result) × State W → Type 0
  Finished request m w x =
      (((args : Arguments btc) → decode_request btc json request.body ≡ ok (result args) → ⊥)
        × (x.1 ≡ (m, w)))
      ⊎ ((args : Arguments btc) × (decode_request btc json request.body ≡ ok (result args))
          × (x
              ≡ finish btc (inc_received_signing_requests m) (
                  sign_unbonding_transaction staking app args.pk_script args.unbonding_tx
                    args.staker_unbonding_sig args.covenant_public_key w)))

  sign_arguments-Finished :
      (decoded : Handling (Arguments btc)) (request : Request) (m : CovenantSignerMetrics) (w : W)
      → decode_request btc json request.body ≡ decoded
      → Finished request m w (sign_arguments staking json app decoded (m, w))
  unfolding sign_arguments
  sign_arguments-Finished (err e) request m w d = inl (λ args h. cc, refl)
  sign_arguments-Finished (panicked t) request m w d = inl (λ args h. cc, refl)
  sign_arguments-Finished (ok (failed e)) request m w d = inl (λ args h. cc, refl)
  sign_arguments-Finished (ok (result args)) request m w d = inr (args, d, refl)

  pub sign_unbonding-Finished :
      (request : Request) (m : CovenantSignerMetrics) (w : W)
      → Finished request m w (sign_unbonding staking json app request (m, w))
  unfolding sign_unbonding
  sign_unbonding-Finished request m w =
      sign_arguments-Finished (decode_request btc json request.body) request m w refl

-- The status and the code of the answer to an error of the signer
abbrev pub Blames : GoError → Error → Type 0
Blames e refusal =
    ((is_invalid_signing_request e ≡ true)
      × (refusal.status_code ≡ 400)
      × (refusal.error_code ≡ bad_request))
    ⊎ ((is_invalid_signing_request e ≡ false)
        × (refusal.status_code ≡ 500)
        × (refusal.error_code ≡ internal_service_error))

signing_error-Blames :
    (e : GoError) → (error_text (signing_error e) ≡ message e) × Blames e (signing_error e)
unfolding signing_error new_error_with_msg new_error error_text message bad_request
    internal_service_error bytes_equal str
signing_error-Blames e = elim (Bool-cases (is_invalid_signing_request e)) [
  | inl invalid ↦ rw invalid (refl, inl (refl, refl, refl))
  | inr internal ↦ rw internal (refl, inr (refl, refl, refl))
]

-- The answer to an outcome of the signer, and what it does to the counters `m` and the world.
module _ (btc : Btc) {W : Type 0} (m : CovenantSignerMetrics) where
  abbrev pub Answers : Outcome btc.Signature × W → Outcome (Handled Result) × State W → Type 0
  Answers (ok sig, w) x = x ≡ (
    ok (
        result (record {
          content =
              public_response
                (record { signature_hex = encode_to_string (btc.serialize_signature sig) });
          status = 200;
        })),
    (
      record {
        received_signing_requests = m.received_signing_requests + 1;
        successful_signing_requests = m.successful_signing_requests + 1;
        failed_signing_requests = m.failed_signing_requests;
      },
      w,
    ),
  )
  Answers (err e, w) x =
      (refusal : Error) × (error_text refusal ≡ message e)
      × Blames e refusal
      × (x ≡ (
        ok (failed refusal),
        (
          record {
            received_signing_requests = m.received_signing_requests + 1;
            successful_signing_requests = m.successful_signing_requests;
            failed_signing_requests = m.failed_signing_requests + 1;
          },
          w,
        ),
      ))
  Answers (panicked t, w) x =
      x
      ≡ (panicked t, (record m { received_signing_requests = m.received_signing_requests + 1 }, w))

  finish-Answers :
      (y : Outcome btc.Signature × W) → Answers y (finish btc (inc_received_signing_requests m) y)
  unfolding finish inc_received_signing_requests inc_successful_signing_requests
      inc_failed_signing_requests new_result
  finish-Answers (ok sig, w) = refl
  finish-Answers (err e, w) =
      let (text, blames) = signing_error-Blames e in (signing_error e, text, blames, refl)
  finish-Answers (panicked t, w) = refl

module _ {btc : Btc} (staking : Staking btc) (json : Json) {W : Type 0}
    (app : SignerApp btc W) where
  -- How a call of the handler ends: with the arguments refused and nothing counted, or with the
  -- answer to the signer's outcome for the decoded arguments.
  abbrev pub Counted :
      Request → CovenantSignerMetrics → W → Outcome (Handled Result) × State W → Type 0
  Counted request m w x =
      (((args : Arguments btc) → decode_request btc json request.body ≡ ok (result args) → ⊥)
        × ((r : Result) → x.0 ≡ ok (result r) → ⊥)
        × (x.1 ≡ (m, w)))
      ⊎ ((args : Arguments btc) × (decode_request btc json request.body ≡ ok (result args))
          × Answers btc m
              (sign_unbonding_transaction staking app args.pk_script args.unbonding_tx
                args.staker_unbonding_sig args.covenant_public_key w)
              x)

  sign_arguments-Counted :
      (decoded : Handling (Arguments btc)) (request : Request) (m : CovenantSignerMetrics) (w : W)
      → decode_request btc json request.body ≡ decoded
      → Counted request m w (sign_arguments staking json app decoded (m, w))
  unfolding sign_arguments
  sign_arguments-Counted (err e) request m w d = inl (λ args h. cc, λ r h. cc, refl)
  sign_arguments-Counted (panicked t) request m w d = inl (λ args h. cc, λ r h. cc, refl)
  sign_arguments-Counted (ok (failed e)) request m w d = inl (λ args h. cc, λ r h. cc, refl)
  sign_arguments-Counted (ok (result args)) request m w d = inr (args, d, finish-Answers btc m _)

  -- For arguments that do not decode, a call of the handler is no success and changes neither a
  -- counter nor the world. For those that decode, it calls the signer on them in the same world,
  -- leaves the signer's world, and counts one more received request: a signature is answered
  -- with status 200 and its hexadecimal text, and one more success is counted; an error is
  -- answered with its text, 400 and BAD_REQUEST if it wraps ErrInvalidSigningRequest and 500 and
  -- INTERNAL_SERVICE_ERROR if not, and one more failure is counted; a panic goes on.
  pub sign_unbonding-Counted :
      (request : Request) (m : CovenantSignerMetrics) (w : W)
      → Counted request m w (sign_unbonding staking json app request (m, w))
  unfolding sign_unbonding
  sign_unbonding-Counted request m w =
      sign_arguments-Counted (decode_request btc json request.body) request m w refl
