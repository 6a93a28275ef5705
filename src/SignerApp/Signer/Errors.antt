-- ===== src/SignerApp/Signer/Errors.antt =====
-- Which errors of `SignUnbondingTransaction` blame the request (they wrap
-- ErrInvalidSigningRequest), and what the others come from.
pub mod Building
use covenant_signer.Prelude.{
  ℕ, ◌≤◌, some, head?, ◌≡◌, refl, ap, sym, ◌∙◌, subst, inl, inr, not, Bool, true, false, arith,
  Bool-cases, List, [], ◌∷◌, leb, ltb, ◌==◌, ◌||◌,
}
use covenant_signer.Prelude.Int.{ℤ, pos, leb_ℤ, ltb_ℤ, ◌≤ℤ◌, sub_int64}
use covenant_signer.Go.Text.{Bytes, GoString, str}
use covenant_signer.Go.Outcome.{
  GoError, new, is_invalid_signing_request, Outcome, ok, err, panicked, first, Reply, answer,
  failure, or_fail, or_err, fail_if, err_rule, err-injective, or_err-eq-err, first-eq-ok,
}
use covenant_signer.Go.Exec.{Fails}
use covenant_signer.Btc.{Btc, Staking, ParsedV0StakingTx, SpendInfo}
use covenant_signer.SignerApp.Interfaces.{BabylonParams, TxInfo, SigningRequest, SigningResult}
use covenant_signer.SignerApp.Signer.{SignerApp, sign_unbonding_transaction}
use covenant_signer.SignerApp.Signer.Checks.{
  wrap_invalid_signing_request_error, staker_signature_error, check_request, check_inclusion_height,
  signing_request, check_covenant_member, check_confirmations, check_output_index,
  check_staking_time, check_staking_amount, unbonding_value, check_unbonding_output, unbonding_path,
  check_staker_signature, pub_key_to_address, outputs_are_equal,
}
use covenant_signer.SignerApp.Signer.Approval.{StakingLaws}
use covenant_signer.SignerApp.Signer.Validation.{
  Ranges, Validated, Validated-sign, Queried-Validated, IsWellFormed, check_request-IsWellFormed,
  check_inclusion_height_iff,
}
use covenant_signer.SignerApp.Signer.Flow.{
  signature_of, Located, Queried, Ends, bad_request, no_input, no_tx, too_late, no_best, no_params,
  not_approved, asked, sign-Ends,
}
use Building.{
  IsInternal, fail_if-not-IsInternal, or_fail-not-IsInternal, first-ne-err, BuildError,
  request_error,
}

module _ {btc : Btc} (staking : Staking btc) {W : Type 0} (app : SignerApp btc W)
    (key : btc.PublicKey) where
  Fails-eq-err :
      {A B : Type 0} (m : Outcome A) (r : Outcome B) {e : GoError}
      → Fails m r
      → r ≡ err e
      → m ≡ err e
  Fails-eq-err (ok a) r f h = absurd f
  Fails-eq-err (err x) r f h = ground arith
  Fails-eq-err (panicked t) r f h = cc

  signature_of-eq-err :
      (x : Outcome (SigningResult btc) × W) {e : GoError}
      → (signature_of {btc = btc} x).0 ≡ err e
      → x.0 ≡ err e
  signature_of-eq-err (ok a, w) h = cc
  signature_of-eq-err (err x, w) h = ground arith
  signature_of-eq-err (panicked u, w) h = cc

  module _ (pk_script : Bytes) (unbonding_tx : btc.MsgTx) (staker_sig : btc.Signature) (w : W) where
    check_request-not-IsInternal :
        {e : GoError} → check_request staking pk_script unbonding_tx ≡ err e → IsInternal e → ⊥
    unfolding check_request
    check_request-not-IsInternal h i =
        err_rule
          (or_fail wrap_invalid_signing_request_error
            (staking.check_pre_signed_unbonding_tx_sanity unbonding_tx))
          _ h (λ x. or_fail-not-IsInternal _ x i)
          λ _ _ h₁.
            err_rule (or_fail wrap_invalid_signing_request_error (btc.parse_pk_script pk_script)) _
              h₁ (λ x. or_fail-not-IsInternal _ x i)
              λ script _ h₂.
                fail_if-not-IsInternal (not (btc.class script == btc.witness_v1_taproot_ty)) _ h₂ i

    too_late-not-IsInternal :
        (info : TxInfo btc) {e : GoError}
        → check_inclusion_height app.cfg info ≡ err e
        → IsInternal e
        → ⊥
    unfolding check_inclusion_height
    too_late-not-IsInternal info h i = fail_if-not-IsInternal _ _ h i

    -- Where an internal error comes from: one of the queries of the call, a function that builds the
    -- request from their answers, or the wallet, asked for the request that validation describes.
    pub data Cause : GoError → Type 0 where
      from_tx_by_hash :
          {e : GoError} (input : btc.TxIn)
          → IsWellFormed staking pk_script unbonding_tx
          → head? (btc.tx_in unbonding_tx) ≡ some input
          → (app.r.tx_by_hash (btc.previous_out_point input).hash pk_script w).0 ≡ err e
          → Cause e
      from_best_block_height :
          {e : GoError} {w₁ : W}
          (l : Located staking app pk_script unbonding_tx staker_sig key w w₁)
          → l.info.tx_inclusion_height ≤ app.cfg.max_staking_transaction_height
          → (app.r.best_block_height w₁).0 ≡ err e
          → Cause e
      from_params_by_height :
          {e : GoError} {w₁ : W}
          (l : Located staking app pk_script unbonding_tx staker_sig key w w₁) (best_block : ℕ)
          (w₂ : W)
          → l.info.tx_inclusion_height ≤ app.cfg.max_staking_transaction_height
          → app.r.best_block_height w₁ ≡ (ok best_block, w₂)
          → (app.p.params_by_height l.info.tx_inclusion_height w₂).0 ≡ err e
          → Cause e
      from_build :
          {e : GoError} {w₃ : W}
          (q : Queried staking app pk_script unbonding_tx staker_sig key w w₃)
          → BuildError staking app.net key q.located.info q.params e
          → Cause e
      from_wallet :
          {e : GoError} (request : SigningRequest btc) (w₃ : W)
          → Validated staking app pk_script unbonding_tx staker_sig key w request w₃
          → (app.s.raw_signature request w₃).0 ≡ err e
          → Cause e

    Ends-Cause :
        (laws : StakingLaws staking) (ranges : Ranges app) {r : Outcome btc.Signature} {w' : W}
        (e : GoError)
        → Ends staking app pk_script unbonding_tx staker_sig key w r w'
        → r ≡ err e
        → IsInternal e
        → Cause e
    Ends-Cause laws ranges e (bad_request f) h i =
        absurd (check_request-not-IsInternal (Fails-eq-err _ _ f h) i)
    Ends-Cause laws ranges e (no_input checked f) h i =
        absurd (first-ne-err (btc.tx_in unbonding_tx) e (Fails-eq-err _ _ f h))
    Ends-Cause laws ranges e (no_tx input checked spends f) h i =
        from_tx_by_hash input (check_request-IsWellFormed staking pk_script unbonding_tx checked)
          (first-eq-ok (btc.tx_in unbonding_tx) spends) (Fails-eq-err _ _ f h)
    Ends-Cause laws ranges e (too_late l f) h i =
        absurd (too_late-not-IsInternal l.info (Fails-eq-err _ _ f h) i)
    Ends-Cause laws ranges e (no_best l in_time f) h i =
        from_best_block_height l ((check_inclusion_height_iff app.cfg l.info).0 in_time)
          (Fails-eq-err _ _ f h)
    Ends-Cause laws ranges e (no_params {w₁} l best in_time has_best f) h i =
        let w₂ = (app.r.best_block_height w₁).1 in
        from_params_by_height l best w₂ ((check_inclusion_height_iff app.cfg l.info).0 in_time)
          (ap (λ x. (x, w₂)) has_best) (Fails-eq-err _ _ f h)
    Ends-Cause laws ranges e (not_approved q f) h i = from_build q (
        request_error staking app.net key q.located.info q.params unbonding_tx staker_sig
          q.best_block e (Fails-eq-err _ _ f h) i)
    Ends-Cause laws ranges e (asked {w₃} q request approved) h i =
        from_wallet request w₃
          (Queried-Validated staking app pk_script unbonding_tx staker_sig key w laws ranges q
            request approved)
          (signature_of-eq-err (app.s.raw_signature request w₃) h)

    -- Under the laws of btcstaking and with answers in the ranges of their types, an error of a
    -- call that does not wrap ErrInvalidSigningRequest is that of a query of this call, or of
    -- the wallet, asked for the request that validation describes, or comes from building this
    -- request from the answers: the value of the staking output less the fee, as an `int64`, is
    -- not positive, or a function of btcstaking or btcutil failed on them with the error's text.
    pub internal_error-Cause :
        (laws : StakingLaws staking) (ranges : Ranges app) (e : GoError)
        → (sign_unbonding_transaction staking app pk_script unbonding_tx staker_sig key w).0 ≡ err e
        → is_invalid_signing_request e ≡ false
        → Cause e
    internal_error-Cause laws ranges e h i =
        Ends-Cause laws ranges e (sign-Ends staking app pk_script unbonding_tx staker_sig key w) h i

    -- Under the laws of btcstaking, with answers in the ranges of their types and a wallet whose
    -- errors blame no request, an error that wraps ErrInvalidSigningRequest means that no
    -- request passes validation: an approvable request is never called invalid.
    pub invalid_error_refutes :
        (laws : StakingLaws staking) (ranges : Ranges app)
        (wallet_errors : (request : SigningRequest btc) (u : W) (e : GoError)
          → (app.s.raw_signature request u).0 ≡ err e
          → is_invalid_signing_request e ≡ false)
        (e : GoError)
        → (sign_unbonding_transaction staking app pk_script unbonding_tx staker_sig key w).0 ≡ err e
        → is_invalid_signing_request e ≡ true
        → (request : SigningRequest btc) (w₃ : W)
        → ¬ Validated staking app pk_script unbonding_tx staker_sig key w request w₃
    invalid_error_refutes laws ranges wallet_errors e h is_invalid request w₃ valid =
        let signs =
          Validated-sign staking app pk_script unbonding_tx staker_sig key w laws ranges request w₃
            valid in
        let refused =
          signature_of-eq-err (app.s.raw_signature request w₃) (ap (λ x. x.0) (sym signs) ∙ h) in
        let plain = wallet_errors request w₃ e refused in cc
