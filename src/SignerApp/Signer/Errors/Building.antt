-- ===== src/SignerApp/Signer/Errors/Building.antt =====
-- The errors of `SignUnbondingTransaction` between the queries and the wallet's call.
use covenant_signer.Prelude.{
  ℕ, ◌≡◌, sym, subst, inl, inr, not, Bool, true, false, arith, Bool-cases, List, [], ◌∷◌,
}
use covenant_signer.Prelude.Int.{ℤ, pos, leb_ℤ, ◌≤ℤ◌, ◌<ℤ◌, sub_int64}
use covenant_signer.Go.Text.{GoString, str}
use covenant_signer.Go.Outcome.{
  GoError, new, is_invalid_signing_request, err, first, Reply, answer, failure, or_fail, or_err,
  fail_if, err_rule, err-injective, or_err-eq-err, or_err-eq-ok, or_fail-eq-ok, ok,
}
use covenant_signer.Btc.{Btc, Staking, ParsedV0StakingTx}
use covenant_signer.SignerApp.Interfaces.{BabylonParams, TxInfo}
use covenant_signer.SignerApp.Signer.Checks.{
  wrap_invalid_signing_request_error, staker_signature_error, signing_request,
  check_covenant_member, check_confirmations, check_output_index, check_staking_time,
  check_staking_amount, unbonding_value, check_unbonding_output, unbonding_path,
  check_staker_signature, pub_key_to_address, outputs_are_equal,
}

-- The error does not wrap ErrInvalidSigningRequest.
abbrev pub IsInternal : GoError → Type 0
IsInternal e = is_invalid_signing_request e ≡ false

wrap_invalid-not-IsInternal : (e : GoError) → IsInternal (wrap_invalid_signing_request_error e) → ⊥
unfolding wrap_invalid_signing_request_error is_invalid_signing_request
wrap_invalid-not-IsInternal e h = cc

-- Steps that blame the request give no internal error.
pub fail_if-not-IsInternal :
    (b : Bool) (text : GoString) {e : GoError}
    → fail_if b (wrap_invalid_signing_request_error (new text)) ≡ err e
    → IsInternal e
    → ⊥
unfolding wrap_invalid_signing_request_error is_invalid_signing_request
fail_if-not-IsInternal true text h i = ground arith
fail_if-not-IsInternal false text h i = cc

pub or_fail-not-IsInternal :
    {A : Type 0} (r : Reply A) {e : GoError}
    → or_fail wrap_invalid_signing_request_error r ≡ err e
    → IsInternal e
    → ⊥
unfolding wrap_invalid_signing_request_error is_invalid_signing_request
or_fail-not-IsInternal (answer a) h i = cc
or_fail-not-IsInternal (failure text) h i = ground arith

staker_signature-not-IsInternal :
    {A : Type 0} (r : Reply A) {e : GoError}
    → or_fail staker_signature_error r ≡ err e
    → IsInternal e
    → ⊥
unfolding staker_signature_error wrap_invalid_signing_request_error is_invalid_signing_request
staker_signature-not-IsInternal (answer a) h i = cc
staker_signature-not-IsInternal (failure text) h i = ground arith

pub first-ne-err {ℓ} : {A : Type ℓ} (xs : List A) (e : GoError) → first xs ≡ err e → ⊥
unfolding first
first-ne-err [] e h = cc
first-ne-err (x ∷ xs) e h = cc

module _ {btc : Btc} (staking : Staking btc) (net : btc.Network) (key : btc.PublicKey)
    (info : TxInfo btc) (params : BabylonParams btc) where
  -- The staking transaction that the node gave, as it is parsed
  abbrev pub IsParsedAs : ParsedV0StakingTx btc → Type 0
  IsParsedAs parsed =
      staking.parse_v0_staking_tx info.tx params.magic_bytes params.covenant_public_keys
        params.covenant_quorum net
      ≡ answer parsed

  -- The staked value less the fee
  abbrev pub value_of : ParsedV0StakingTx btc → ℤ
  value_of parsed = sub_int64 parsed.staking_output.value params.unbonding_fee

  -- The causes of an internal error once the queries are answered: the staked value less the fee is
  -- not positive, or a function of btcstaking or btcutil has failed with the error's text.
  pub data BuildError : GoError → Type 0 where
    value_too_low :
        (parsed : ParsedV0StakingTx btc)
        → IsParsedAs parsed
        → value_of parsed ≤ℤ pos 0
        → BuildError (new (str "staking output value is too low"))
    no_unbonding_info :
        {text : GoString} (parsed : ParsedV0StakingTx btc)
        → IsParsedAs parsed
        → pos 0 <ℤ value_of parsed
        → staking.build_unbonding_info parsed.staker_public_key
            (parsed.finality_provider_public_key ∷ [])
            params.covenant_public_keys
            params.covenant_quorum
            params.unbonding_time
            (value_of parsed)
            net
          ≡ failure text
        → BuildError (new text)
    no_staking_info :
        {text : GoString} (parsed : ParsedV0StakingTx btc)
        → IsParsedAs parsed
        → staking.build_staking_info parsed.staker_public_key
            (parsed.finality_provider_public_key ∷ [])
            params.covenant_public_keys
            params.covenant_quorum
            parsed.staking_time
            parsed.staking_output.value
            net
          ≡ failure text
        → BuildError (new text)
    no_path :
        {text : GoString} (parsed : ParsedV0StakingTx btc) (built : staking.StakingInfo)
        → IsParsedAs parsed
        → staking.build_staking_info parsed.staker_public_key
            (parsed.finality_provider_public_key ∷ [])
            params.covenant_public_keys
            params.covenant_quorum
            parsed.staking_time
            parsed.staking_output.value
            net
          ≡ answer built
        → staking.unbonding_path_spend_info built ≡ failure text
        → BuildError (new text)
    no_address :
        {text : GoString}
        → btc.new_address_witness_pub_key_hash (btc.hash160 (btc.serialize_compressed key)) net
          ≡ failure text
        → BuildError (new text)

  value_error :
      (parsed : ParsedV0StakingTx btc) {e : GoError}
      → IsParsedAs parsed
      → unbonding_value parsed params ≡ err e
      → BuildError e
  unfolding unbonding_value
  value_error parsed is h =
      let value = sub_int64 parsed.staking_output.value params.unbonding_fee in
      elim (Bool-cases (leb_ℤ value (pos 0))) [
        | inl low ↦
            subst BuildError (err-injective (rw low at h)) (value_too_low parsed is (ground arith))
        | inr high ↦ let wrong = rw high at h in cc
      ]

  unbonding_value-eq-ok :
      (parsed : ParsedV0StakingTx btc) (value : ℤ)
      → unbonding_value parsed params ≡ ok value
      → (pos 0 <ℤ value_of parsed) × (value ≡ value_of parsed)
  unfolding unbonding_value
  unbonding_value-eq-ok parsed value h = ground arith

  abbrev Failed : ParsedV0StakingTx btc → ℤ → GoString → Type 0
  Failed parsed value text =
      staking.build_unbonding_info parsed.staker_public_key
        (parsed.finality_provider_public_key ∷ []) params.covenant_public_keys
        params.covenant_quorum params.unbonding_time value net
      ≡ failure text

  output_error :
      (tx : btc.MsgTx) (parsed : ParsedV0StakingTx btc) (value : ℤ) {e : GoError}
      → IsParsedAs parsed
      → unbonding_value parsed params ≡ ok value
      → check_unbonding_output staking net tx params parsed value ≡ err e
      → IsInternal e
      → BuildError e
  unfolding check_unbonding_output
  output_error tx parsed value is gives h i =
      let (positive, same_value) = unbonding_value-eq-ok parsed value gives in
      let reply =
        staking.build_unbonding_info parsed.staker_public_key
          (parsed.finality_provider_public_key ∷ []) params.covenant_public_keys
          params.covenant_quorum params.unbonding_time value net in
      err_rule (or_err reply) _ h
        (λ e₁.
          let (text, failed, same) = or_err-eq-err reply e₁ in
          subst BuildError (sym same) (
            no_unbonding_info parsed is positive
              (subst (λ v. Failed parsed v text) same_value failed)))
        λ info _ h₁.
          err_rule (first (btc.tx_out tx)) _ h₁ (λ e₂. absurd (first-ne-err (btc.tx_out tx) _ e₂))
            λ output _ h₂. absurd (
              fail_if-not-IsInternal
                (not (outputs_are_equal (staking.unbonding_output info) output)) _ h₂ i)

  path_error :
      (parsed : ParsedV0StakingTx btc) {e : GoError}
      → IsParsedAs parsed
      → unbonding_path staking net params parsed ≡ err e
      → BuildError e
  unfolding unbonding_path
  path_error parsed is h =
      let reply =
        staking.build_staking_info parsed.staker_public_key
          (parsed.finality_provider_public_key ∷ []) params.covenant_public_keys
          params.covenant_quorum parsed.staking_time parsed.staking_output.value net in
      err_rule (or_err reply) _ h
        (λ e₁.
          let (text, failed, same) = or_err-eq-err reply e₁ in
          subst BuildError (sym same) (no_staking_info parsed is failed))
        λ built builds h₁.
          let (text, failed, same) = or_err-eq-err (staking.unbonding_path_spend_info built) h₁ in
          subst BuildError (sym same) (no_path parsed built is (or_err-eq-ok reply builds) failed)

  address_error : {e : GoError} → pub_key_to_address btc net key ≡ err e → BuildError e
  unfolding pub_key_to_address
  address_error h =
      let (text, failed, same) =
        or_err-eq-err
          (btc.new_address_witness_pub_key_hash (btc.hash160 (btc.serialize_compressed key)) net)
          h in
      subst BuildError (sym same) (no_address failed)

  pub request_error :
      (tx : btc.MsgTx) (sig : btc.Signature) (best : ℕ) (e : GoError)
      → signing_request staking net tx sig key info best params ≡ err e
      → IsInternal e
      → BuildError e
  unfolding signing_request check_covenant_member check_confirmations check_output_index
      check_staking_time check_staking_amount check_staker_signature
  request_error tx sig best e h i =
      err_rule (check_covenant_member key params info) _ h
        (λ x. absurd (fail_if-not-IsInternal _ _ x i))
        λ _ _ h₁.
          err_rule (check_confirmations best info params) _ h₁
            (λ x. absurd (fail_if-not-IsInternal _ _ x i))
            λ _ _ h₂.
              err_rule
                (or_fail wrap_invalid_signing_request_error (
                  staking.parse_v0_staking_tx info.tx params.magic_bytes params.covenant_public_keys
                    params.covenant_quorum net))
                _ h₂ (λ x. absurd (or_fail-not-IsInternal _ x i))
                λ parsed parses h₃.
                  let is = or_fail-eq-ok wrap_invalid_signing_request_error _ parses in
                  err_rule (first (btc.tx_in tx)) _ h₃
                    (λ x. absurd (first-ne-err (btc.tx_in tx) _ x))
                    λ input _ h₄.
                      let point = btc.previous_out_point input in
                      err_rule (check_output_index {btc = btc} point parsed) _ h₄
                        (λ x. absurd (fail_if-not-IsInternal _ _ x i))
                        λ _ _ h₅.
                          err_rule (check_staking_time point.hash parsed params) _ h₅
                            (λ x. absurd (fail_if-not-IsInternal _ _ x i))
                            λ _ _ h₆.
                              err_rule (check_staking_amount point.hash parsed params) _ h₆
                                (λ x. absurd (fail_if-not-IsInternal _ _ x i))
                                λ _ _ h₇.
                                  err_rule (unbonding_value parsed params) _ h₇
                                    (value_error parsed is)
                                    λ value gives h₈.
                                      err_rule
                                        (check_unbonding_output staking net tx params parsed value)
                                        _ h₈ (λ x. output_error tx parsed value is gives x i)
                                        λ _ _ h₉.
                                          err_rule (unbonding_path staking net params parsed) _ h₉
                                            (path_error parsed is)
                                            λ path _ h₁₀.
                                              err_rule
                                                (check_staker_signature staking tx sig parsed path)
                                                _ h₁₀
                                                (λ x.
                                                  absurd (staker_signature-not-IsInternal _ x i))
                                                λ _ _ h₁₁.
                                                  err_rule (pub_key_to_address btc net key) _ h₁₁
                                                    address_error λ address _ h₁₂. cc
