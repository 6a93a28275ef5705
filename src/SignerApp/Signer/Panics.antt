-- ===== src/SignerApp/Signer/Panics.antt =====
-- `TxIn[0]` and `TxOut[0]` are read only of a transaction that has them.
use covenant_signer.Prelude.{arith, ◌≡◌, refl, not, ◌∷◌, [], List, ltb, ◌==◌, ℕ}
use covenant_signer.Prelude.Int.{ℤ}
use covenant_signer.Go.Text.{Bytes}
use covenant_signer.Go.Outcome.{
  Outcome, ok, err, panicked, NoPanic, bind-NoPanic, or_fail-NoPanic, or_err-NoPanic,
  fail_if-NoPanic, ok-NoPanic, first, or_fail, or_err,
}
use covenant_signer.Go.Exec.{Fails}
use covenant_signer.Btc.{Btc, Staking, TxOut, ParsedV0StakingTx}
use covenant_signer.SignerApp.Interfaces.{BabylonParams, TxInfo, SigningRequest, SigningResult}
use covenant_signer.SignerApp.Signer.{SignerApp, sign_unbonding_transaction}
use covenant_signer.SignerApp.Signer.Checks.{
  staker_signature_error, check_request, check_inclusion_height, signing_request,
  wrap_invalid_signing_request_error, check_covenant_member, check_confirmations,
  check_output_index, check_staking_time, check_staking_amount, unbonding_value,
  check_unbonding_output, unbonding_path, check_staker_signature, pub_key_to_address,
  outputs_are_equal,
}
use covenant_signer.SignerApp.Signer.Approval.{StakingLaws}
use covenant_signer.SignerApp.Signer.Validation.{check_request-IsWellFormed}
use covenant_signer.SignerApp.Signer.Flow.{
  signature_of, Ends, bad_request, no_input, no_tx, too_late, no_best, no_params, not_approved,
  asked, sign-Ends,
}

first-NoPanic {ℓ} : {A : Type ℓ} (xs : List A) (x : A) → xs ≡ x ∷ [] → NoPanic (first xs)
unfolding first
first-NoPanic xs x e = rw e (ok-NoPanic x)

module _ {btc : Btc} where
  check_request-NoPanic :
      (staking : Staking btc) (pk_script : Bytes) (tx : btc.MsgTx)
      → NoPanic (check_request staking pk_script tx)
  unfolding check_request
  check_request-NoPanic staking pk_script tx =
      bind-NoPanic
        (or_fail wrap_invalid_signing_request_error
          (staking.check_pre_signed_unbonding_tx_sanity tx))
        _ (or_fail-NoPanic wrap_invalid_signing_request_error _)
        λ _ _.
          bind-NoPanic (or_fail wrap_invalid_signing_request_error (btc.parse_pk_script pk_script))
            _ (or_fail-NoPanic wrap_invalid_signing_request_error _)
            λ script _. fail_if-NoPanic (not (btc.class script == btc.witness_v1_taproot_ty)) _

  check_inclusion_height-NoPanic :
      {W : Type 0} (app : SignerApp btc W) (info : TxInfo btc)
      → NoPanic (check_inclusion_height app.cfg info)
  unfolding check_inclusion_height
  check_inclusion_height-NoPanic app info =
      fail_if-NoPanic (ltb app.cfg.max_staking_transaction_height info.tx_inclusion_height) _

  unbonding_value-NoPanic :
      (parsed : ParsedV0StakingTx btc) (params : BabylonParams btc)
      → NoPanic (unbonding_value parsed params)
  unfolding unbonding_value
  unbonding_value-NoPanic parsed params t h = ground arith

  module _ (staking : Staking btc) (tx : btc.MsgTx) (i : btc.TxIn) (one_in : btc.tx_in tx ≡ i ∷ [])
      (o : TxOut) (one_out : btc.tx_out tx ≡ o ∷ []) where
    check_unbonding_output-NoPanic :
        (net : btc.Network) (params : BabylonParams btc) (parsed : ParsedV0StakingTx btc)
        (value : ℤ)
        → NoPanic (check_unbonding_output staking net tx params parsed value)
    unfolding check_unbonding_output
    check_unbonding_output-NoPanic net params parsed value =
        let reply =
          staking.build_unbonding_info parsed.staker_public_key
            (parsed.finality_provider_public_key ∷ []) params.covenant_public_keys
            params.covenant_quorum params.unbonding_time value net in
        bind-NoPanic (or_err reply) _ (or_err-NoPanic reply) λ info _.
          bind-NoPanic (first (btc.tx_out tx)) _ (first-NoPanic (btc.tx_out tx) o one_out)
            λ output _.
              fail_if-NoPanic (not (outputs_are_equal (staking.unbonding_output info) output)) _

    unbonding_path-NoPanic :
        (net : btc.Network) (params : BabylonParams btc) (parsed : ParsedV0StakingTx btc)
        → NoPanic (unbonding_path staking net params parsed)
    unfolding unbonding_path
    unbonding_path-NoPanic net params parsed =
        let reply =
          staking.build_staking_info parsed.staker_public_key
            (parsed.finality_provider_public_key ∷ []) params.covenant_public_keys
            params.covenant_quorum parsed.staking_time parsed.staking_output.value net in
        bind-NoPanic (or_err reply) _ (or_err-NoPanic reply)
          λ info _. or_err-NoPanic (staking.unbonding_path_spend_info info)

    signing_request-NoPanic :
        (net : btc.Network) (sig : btc.Signature) (key : btc.PublicKey) (info : TxInfo btc)
        (best : ℕ) (params : BabylonParams btc)
        → NoPanic (signing_request staking net tx sig key info best params)
    unfolding signing_request check_covenant_member check_confirmations check_output_index
        check_staking_time check_staking_amount check_staker_signature pub_key_to_address
    signing_request-NoPanic net sig key info best params =
        bind-NoPanic (check_covenant_member key params info) _ (fail_if-NoPanic _ _) λ _ _.
          bind-NoPanic (check_confirmations best info params) _ (fail_if-NoPanic _ _) λ _ _.
            bind-NoPanic
              (or_fail wrap_invalid_signing_request_error (
                staking.parse_v0_staking_tx info.tx params.magic_bytes params.covenant_public_keys
                  params.covenant_quorum net))
              _ (or_fail-NoPanic wrap_invalid_signing_request_error _)
              λ parsed _.
                bind-NoPanic (first (btc.tx_in tx)) _ (first-NoPanic (btc.tx_in tx) i one_in)
                  λ input _.
                    let point = btc.previous_out_point input in
                    bind-NoPanic (check_output_index {btc = btc} point parsed) _
                      (fail_if-NoPanic _ _)
                      λ _ _.
                        bind-NoPanic (check_staking_time point.hash parsed params) _
                          (fail_if-NoPanic _ _)
                          λ _ _.
                            bind-NoPanic (check_staking_amount point.hash parsed params) _
                              (fail_if-NoPanic _ _)
                              λ _ _.
                                bind-NoPanic (unbonding_value parsed params) _
                                  (unbonding_value-NoPanic parsed params)
                                  λ value _.
                                    bind-NoPanic
                                      (check_unbonding_output staking net tx params parsed value) _
                                      (check_unbonding_output-NoPanic net params parsed value)
                                      λ _ _.
                                        bind-NoPanic (unbonding_path staking net params parsed) _
                                          (unbonding_path-NoPanic net params parsed)
                                          λ path _.
                                            bind-NoPanic
                                              (check_staker_signature staking tx sig parsed path) _
                                              (or_fail-NoPanic staker_signature_error _)
                                              λ _ _.
                                                bind-NoPanic (pub_key_to_address btc net key) _
                                                  (or_err-NoPanic _) λ address _. ok-NoPanic _

Fails-NoPanic : {A B : Type 0} (m : Outcome A) (r : Outcome B) → NoPanic m → Fails m r → NoPanic r
Fails-NoPanic (ok a) r none f t h = f
Fails-NoPanic (err e) r none f t h = cc
Fails-NoPanic (panicked u) r none f t h = none u refl

module _ {btc : Btc} (staking : Staking btc) (laws : StakingLaws staking) {W : Type 0}
    (app : SignerApp btc W)
    (tx_by_hash-NoPanic : (hash : btc.Hash) (script : Bytes) (u : W)
      → NoPanic (app.r.tx_by_hash hash script u).0)
    (best_block_height-NoPanic : (u : W) → NoPanic (app.r.best_block_height u).0)
    (params_by_height-NoPanic : (height : ℕ) (u : W) → NoPanic (app.p.params_by_height height u).0)
    (raw_signature-NoPanic : (request : SigningRequest btc) (u : W)
      → NoPanic (app.s.raw_signature request u).0)
    (pk_script : Bytes) (unbonding_tx : btc.MsgTx) (staker_sig : btc.Signature)
    (key : btc.PublicKey) (w : W) where
  signature_of-NoPanic :
      (x : Outcome (SigningResult btc) × W) → NoPanic x.0 → NoPanic (signature_of {btc = btc} x).0
  signature_of-NoPanic (ok a, w) none t h = cc
  signature_of-NoPanic (err e, w) none t h = cc
  signature_of-NoPanic (panicked u, w) none t h = none u refl

  -- What the sanity check passes has one input and one output.
  request-NoPanic :
      (net : btc.Network) (info : TxInfo btc) (best_block : ℕ) (params : BabylonParams btc)
      → check_request staking pk_script unbonding_tx ≡ ok tt
      → NoPanic (signing_request staking net unbonding_tx staker_sig key info best_block params)
  request-NoPanic net info best_block params checked =
      let sane = (check_request-IsWellFormed staking pk_script unbonding_tx checked).sane in
      let (i, one_in) = laws.one_input unbonding_tx sane in
      let (o, one_out) = laws.one_output unbonding_tx sane in
      signing_request-NoPanic staking unbonding_tx i one_in o one_out net staker_sig key info
        best_block params

  Ends-NoPanic :
      {r : Outcome btc.Signature} {w' : W}
      → Ends staking app pk_script unbonding_tx staker_sig key w r w'
      → NoPanic r
  Ends-NoPanic (bad_request f) =
      Fails-NoPanic _ _ (check_request-NoPanic staking pk_script unbonding_tx) f
  Ends-NoPanic (no_input checked f) =
      let sane = (check_request-IsWellFormed staking pk_script unbonding_tx checked).sane in
      let (i, one_in) = laws.one_input unbonding_tx sane in
      Fails-NoPanic _ _ (first-NoPanic (btc.tx_in unbonding_tx) i one_in) f
  Ends-NoPanic (no_tx i checked spends f) = Fails-NoPanic _ _ (tx_by_hash-NoPanic _ _ w) f
  Ends-NoPanic (too_late l f) = Fails-NoPanic _ _ (check_inclusion_height-NoPanic app l.info) f
  Ends-NoPanic (no_best l in_time f) = Fails-NoPanic _ _ (best_block_height-NoPanic _) f
  Ends-NoPanic (no_params l best in_time has_best f) =
      Fails-NoPanic _ _ (params_by_height-NoPanic _ _) f
  Ends-NoPanic (not_approved q f) =
      Fails-NoPanic _ _
        (request-NoPanic app.net q.located.info q.best_block q.params q.located.checked) f
  Ends-NoPanic (asked {w₃} q request approved) =
      signature_of-NoPanic (app.s.raw_signature request w₃) (raw_signature-NoPanic request w₃)

  -- Under the laws of btcstaking, by which the sanity check passes only transactions with one
  -- input and one output, and if neither the queries nor the wallet panic, no call of
  -- `SignUnbondingTransaction` panics: the unguarded reads of `TxIn[0]` and `TxOut[0]` are safe.
  pub sign-NoPanic :
      NoPanic (sign_unbonding_transaction staking app pk_script unbonding_tx staker_sig key w).0
  sign-NoPanic = Ends-NoPanic (sign-Ends staking app pk_script unbonding_tx staker_sig key w)
