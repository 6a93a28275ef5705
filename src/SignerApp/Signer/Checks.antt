-- ===== src/SignerApp/Signer/Checks.antt =====
-- The pure steps of signerapp/signer.go: each check of `SignUnbondingTransaction`, and their chain
-- up to the request that the wallet is sent.
use covenant_signer.Prelude.{
  ℕ, Bool, true, false, not, List, [], ◌∷◌, ◌++◌, if◌then◌else◌, ltb, ◌==◌, ◌||◌, bytes_equal,
}
use covenant_signer.Prelude.Int.{ℤ, pos, ltb_ℤ, leb_ℤ, eqb_ℤ, add_int64, sub_int64, to_uint32}
use covenant_signer.Go.Text.{Bytes, str, decimal, decimal_ℤ}
use covenant_signer.Go.Hex.{encode_to_string}
use covenant_signer.Go.Outcome.{
  GoError, invalid_signing_request, new, message, errorf, Outcome, ok, err, ◌>>=◌, ◌>>◌, fail_if,
  first, or_fail, or_err,
}
use covenant_signer.Btc.{Btc, Staking, TxOut, OutPointOf, ParsedV0StakingTx, SpendInfo}
use covenant_signer.Config.App.{ParsedSignerAppConfig}
use covenant_signer.SignerApp.Interfaces.{BabylonParams, TxInfo, SigningRequest}

-- `wrapInvalidSigningRequestError`
unfoldable pub wrap_invalid_signing_request_error : GoError → GoError
unfolding message errorf
wrap_invalid_signing_request_error e = errorf (message e) invalid_signing_request

abbrev invalid : List ℕ → GoError
invalid text = wrap_invalid_signing_request_error (new text)

-- The error for a staker's signature that does not verify
unfoldable pub staker_signature_error : GoError → GoError
staker_signature_error e =
    wrap_invalid_signing_request_error
      (errorf (str "staker unbonding signature verification failed") e)

-- `outputsAreEqual`
unfoldable pub outputs_are_equal : TxOut → TxOut → Bool
outputs_are_equal a b =
    if not (eqb_ℤ a.value b.value)
    then false
    else if not (bytes_equal a.pk_script b.pk_script)
    then false
    else true

module _ (btc : Btc) where
  -- `isCovenantMember`
  unfoldable pub is_covenant_member : btc.PublicKey → List btc.PublicKey → Bool
  is_covenant_member pub_key [] = false
  is_covenant_member pub_key (key ∷ keys) =
      if btc.is_equal pub_key key then true else is_covenant_member pub_key keys

  -- `pubKeyToAddress`
  unfoldable pub pub_key_to_address : btc.Network → btc.PublicKey → Outcome btc.Address
  pub_key_to_address net pub_key =
      or_err
        (btc.new_address_witness_pub_key_hash (btc.hash160 (btc.serialize_compressed pub_key)) net)

module _ {btc : Btc} where
  -- The check on TxInclusionHeight
  unfoldable pub check_inclusion_height : ParsedSignerAppConfig → TxInfo btc → Outcome (Unit {0})
  check_inclusion_height cfg info =
      fail_if (ltb cfg.max_staking_transaction_height info.tx_inclusion_height) (
        invalid (
          str "staking transaction is inlcluded to late in btc. Max allowed height is "
          ++ (decimal cfg.max_staking_transaction_height
              ++ (str ", but staking tx height is " ++ decimal info.tx_inclusion_height))))

  unfoldable pub check_covenant_member :
      btc.PublicKey → BabylonParams btc → TxInfo btc → Outcome (Unit {0})
  unfolding is_covenant_member
  check_covenant_member key params info =
      fail_if (not (is_covenant_member btc key params.covenant_public_keys)) (
        invalid (
          str "received covenant public key "
          ++ (encode_to_string (btc.serialize_compressed key)
              ++ (str " is not committee member at height " ++ decimal info.tx_inclusion_height))))

  -- `numberOfStakingTxConfirmations`
  unfoldable pub confirmations : ℕ → TxInfo btc → ℤ
  unfolding add_int64 sub_int64
  confirmations best_block info =
      add_int64 (sub_int64 (pos best_block) (pos info.tx_inclusion_height)) (pos 1)

  unfoldable pub check_confirmations : ℕ → TxInfo btc → BabylonParams btc → Outcome (Unit {0})
  check_confirmations best_block info params =
      fail_if (ltb_ℤ (confirmations best_block info) (pos params.confirmation_depth)) (
        invalid (
          str "staking tx does not have enough confirmations. Current confirmations: "
          ++ (decimal_ℤ (confirmations best_block info)
              ++ (str ", required confirmations: " ++ decimal params.confirmation_depth))))

  unfoldable pub check_output_index :
      OutPointOf btc.Hash → ParsedV0StakingTx btc → Outcome (Unit {0})
  unfolding to_uint32
  check_output_index input parsed =
      fail_if (not (input.index == to_uint32 parsed.staking_output_idx))
        (invalid (str "unbonding transaction has invalid input index"))

  unfoldable pub check_staking_time :
      btc.Hash → ParsedV0StakingTx btc → BabylonParams btc → Outcome (Unit {0})
  check_staking_time hash parsed params =
      fail_if
        (ltb parsed.staking_time params.min_staking_time
          || ltb params.max_staking_time parsed.staking_time)
        (invalid (
          str "staking time of staking tx with hash: "
          ++ (btc.hash_string hash ++ str " is out of bounds")))

  unfoldable pub check_staking_amount :
      btc.Hash → ParsedV0StakingTx btc → BabylonParams btc → Outcome (Unit {0})
  check_staking_amount hash parsed params =
      fail_if
        (ltb_ℤ parsed.staking_output.value params.min_staking_amount
          || ltb_ℤ params.max_staking_amount parsed.staking_output.value)
        (invalid (
          str "staking amount of staking tx with hash: "
          ++ (btc.hash_string hash ++ str " is out of bounds")))

  -- `expectedUnbondingOutputValue`
  unfoldable pub unbonding_value : ParsedV0StakingTx btc → BabylonParams btc → Outcome ℤ
  unfolding sub_int64
  unbonding_value parsed params =
      let value = sub_int64 parsed.staking_output.value params.unbonding_fee in
      if leb_ℤ value (pos 0) then err (new (str "staking output value is too low")) else ok value

module _ {btc : Btc} (staking : Staking btc) where
  -- The checks that need no query: the shape of the transaction and the class of the script
  unfoldable pub check_request : Bytes → btc.MsgTx → Outcome (Unit {0})
  check_request pk_script unbonding_tx = do
    or_fail wrap_invalid_signing_request_error
        (staking.check_pre_signed_unbonding_tx_sanity unbonding_tx)
    script ← or_fail wrap_invalid_signing_request_error (btc.parse_pk_script pk_script)
    fail_if (not (btc.class script == btc.witness_v1_taproot_ty))
        (invalid (str "invalid staking output pk script"))

  -- The expected output is built and compared with that of the transaction.
  unfoldable pub check_unbonding_output :
      btc.Network → btc.MsgTx → BabylonParams btc → ParsedV0StakingTx btc → ℤ → Outcome (Unit {0})
  unfolding outputs_are_equal
  check_unbonding_output net unbonding_tx params parsed value = do
    unbonding_info ← or_err (
        staking.build_unbonding_info parsed.staker_public_key
          (parsed.finality_provider_public_key ∷ []) params.covenant_public_keys
          params.covenant_quorum params.unbonding_time value net)
    output ← first (btc.tx_out unbonding_tx)
    fail_if (not (outputs_are_equal (staking.unbonding_output unbonding_info) output))
        (invalid (str "unbonding output does not match expected output"))

  unfoldable pub unbonding_path :
      btc.Network → BabylonParams btc → ParsedV0StakingTx btc → Outcome (SpendInfo btc)
  unbonding_path net params parsed = do
    staking_info ← or_err (
        staking.build_staking_info parsed.staker_public_key
          (parsed.finality_provider_public_key ∷ []) params.covenant_public_keys
          params.covenant_quorum parsed.staking_time parsed.staking_output.value net)
    or_err (staking.unbonding_path_spend_info staking_info)

  unfoldable pub check_staker_signature :
      btc.MsgTx → btc.Signature → ParsedV0StakingTx btc → SpendInfo btc → Outcome (Unit {0})
  check_staker_signature unbonding_tx staker_sig parsed path = or_fail staker_signature_error (
      staking.verify_transaction_sig_with_output unbonding_tx parsed.staking_output
        path.revealed_leaf.script parsed.staker_public_key (btc.serialize_signature staker_sig))

  -- From the check on the covenant member to the request that is sent to the wallet.
  unfoldable pub signing_request :
      btc.Network
      → btc.MsgTx
      → btc.Signature
      → btc.PublicKey
      → TxInfo btc
      → ℕ
      → BabylonParams btc
      → Outcome (SigningRequest btc)
  signing_request net unbonding_tx staker_sig key info best_block params = do
    check_covenant_member key params info
    check_confirmations best_block info params
    parsed ← or_fail wrap_invalid_signing_request_error (
        staking.parse_v0_staking_tx info.tx params.magic_bytes params.covenant_public_keys
          params.covenant_quorum net)
    tx_in ← first (btc.tx_in unbonding_tx)
    check_output_index {btc = btc} (btc.previous_out_point tx_in) parsed
    check_staking_time {btc = btc} (btc.previous_out_point tx_in).hash parsed params
    check_staking_amount {btc = btc} (btc.previous_out_point tx_in).hash parsed params
    value ← unbonding_value parsed params
    check_unbonding_output net unbonding_tx params parsed value
    path ← unbonding_path net params parsed
    check_staker_signature unbonding_tx staker_sig parsed path
    address ← pub_key_to_address btc net key
    ok (record {
      staking_output = parsed.staking_output;
      unbonding_transaction = unbonding_tx;
      covenant_public_key = key;
      covenant_address = address;
      spend_description = record {
        control_block = path.control_block;
        script_leaf = path.revealed_leaf;
      };
    })
