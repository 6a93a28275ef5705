-- ===== src/SignerApp/Signer/Requests.antt =====
-- `signing_request` returns a request exactly when the conditions of docs/validation.md hold.
pub mod Steps
use covenant_signer.Prelude.{
  ℕ, ap, sym, not, ◌≡◌, refl, ◌↔◌, Bool, true, false, some, [], ◌∷◌, arith, head?,
}
use covenant_signer.Prelude.Int.{IsUint32, ℤ, ◌-ℤ◌}
use covenant_signer.Go.Outcome.{
  ok, ok-injective, bind-eq-ok, or_fail-eq-ok, first, or_fail, or_err-eq-ok, first-eq-ok,
  first_of_head, fail_if-eq-ok, answer, or_err,
}
use covenant_signer.Btc.{Btc, Staking, ParsedV0StakingTx, SpendInfo}
use covenant_signer.SignerApp.Interfaces.{BabylonParams, TxInfo, SigningRequest}
use covenant_signer.SignerApp.Signer.Checks.{
  staker_signature_error, signing_request, wrap_invalid_signing_request_error,
  check_covenant_member, check_confirmations, check_output_index, check_staking_time,
  check_staking_amount, unbonding_value, check_unbonding_output, unbonding_path,
  check_staker_signature, pub_key_to_address, outputs_are_equal,
}
use covenant_signer.SignerApp.Signer.Approval.{
  InRange, StakingLaws, IsApproved, check_covenant_member_iff, check_confirmations_iff,
  check_output_index_iff, check_staking_time_iff, check_staking_amount_iff, unbonding_value_iff,
  outputs_are_equal_iff,
}
use Steps.{
  Passes, check_unbonding_output_iff, unbonding_path_iff, signing_request-Passes,
  Passes-signing_request,
}

module _ {btc : Btc} (staking : Staking btc) (laws : StakingLaws staking) (net : btc.Network)
    (unbonding_tx : btc.MsgTx) (staker_sig : btc.Signature) (key : btc.PublicKey)
    (info : TxInfo btc) (best_block : ℕ) (params : BabylonParams btc)
    (best_range : IsUint32 best_block) (height_range : IsUint32 info.tx_inclusion_height)
    (range : InRange params) (request : SigningRequest btc) where
  Passes-IsApproved :
      Passes staking net unbonding_tx staker_sig key info best_block params request
      → IsApproved staking net unbonding_tx staker_sig key info best_block params request
  unfolding check_staker_signature pub_key_to_address
  Passes-IsApproved p =
      let parses = or_fail-eq-ok wrap_invalid_signing_request_error _ p.parses in
      let (n, is_n, small) = laws.output_idx _ _ _ _ _ _ parses in
      let point = btc.previous_out_point p.input in
      let (min_time, max_time) =
        (check_staking_time_iff {btc = btc} point.hash p.parsed params).0 p.time in
      let (min_amount, max_amount) =
        (check_staking_amount_iff {btc = btc} point.hash p.parsed params).0 p.amount in
      let (covers, is_value) =
        (unbonding_value_iff p.parsed params p.value range min_amount max_amount).0 p.left in
      let (built, builds, pays) =
        (check_unbonding_output_iff staking net unbonding_tx params p.parsed
            (p.parsed.staking_output.value -ℤ params.unbonding_fee)).0
          (rw is_value at p.pays) in
      let (staking_info, stakes, found) =
        (unbonding_path_iff staking net params p.parsed p.path).0 p.has_path in
      record {
        is_member = (check_covenant_member_iff key params info).0 p.member;
        is_deep = (check_confirmations_iff best_block info params best_range height_range).0 p.deep;
        parsed = p.parsed;
        parses = parses;
        input = p.input;
        spends = first-eq-ok (btc.tx_in unbonding_tx) p.spends;
        output_index = (check_output_index_iff {btc = btc} point p.parsed n is_n small).0 p.index;
        min_time = min_time;
        max_time = max_time;
        min_amount = min_amount;
        max_amount = max_amount;
        covers_fee = covers;
        unbonding_info = built;
        builds_unbonding = builds;
        pays = pays;
        staking_info = staking_info;
        builds_staking = stakes;
        path = p.path;
        has_path = found;
        is_signed = or_fail-eq-ok staker_signature_error _ p.signed;
        address = p.address;
        has_address = or_err-eq-ok _ p.has_address;
        same_output = ap (λ r. r.staking_output) (sym p.built);
        same_tx = ap (λ r. r.unbonding_transaction) (sym p.built);
        same_key = ap (λ r. r.covenant_public_key) (sym p.built);
        same_address = ap (λ r. r.covenant_address) (sym p.built);
        same_control_block = ap (λ r. r.spend_description.control_block) (sym p.built);
        same_leaf = ap (λ r. r.spend_description.script_leaf) (sym p.built);
      }

  IsApproved-Passes :
      IsApproved staking net unbonding_tx staker_sig key info best_block params request
      → Passes staking net unbonding_tx staker_sig key info best_block params request
  unfolding check_staker_signature pub_key_to_address
  IsApproved-Passes a =
      let (n, is_n, small) = laws.output_idx _ _ _ _ _ _ a.parses in
      let point = btc.previous_out_point a.input in
      record {
        member = (check_covenant_member_iff key params info).1 a.is_member;
        deep = (check_confirmations_iff best_block info params best_range height_range).1 a.is_deep;
        parsed = a.parsed;
        parses = rw a.parses;
        input = a.input;
        spends = first_of_head (btc.tx_in unbonding_tx) a.spends;
        index = (check_output_index_iff {btc = btc} point a.parsed n is_n small).1 a.output_index;
        time =
            (check_staking_time_iff {btc = btc} point.hash a.parsed params).1
              (a.min_time, a.max_time);
        amount =
            (check_staking_amount_iff {btc = btc} point.hash a.parsed params).1
              (a.min_amount, a.max_amount);
        value = a.parsed.staking_output.value -ℤ params.unbonding_fee;
        left =
            (unbonding_value_iff a.parsed params _ range a.min_amount a.max_amount).1
              (a.covers_fee, refl);
        pays =
            (check_unbonding_output_iff staking net unbonding_tx params a.parsed _).1
              (a.unbonding_info, a.builds_unbonding, a.pays);
        path = a.path;
        has_path =
            (unbonding_path_iff staking net params a.parsed a.path).1
              (a.staking_info, a.builds_staking, a.has_path);
        signed = rw a.is_signed;
        address = a.address;
        has_address = rw a.has_address;
        built = λ i. record {
          staking_output = sym a.same_output i;
          unbonding_transaction = sym a.same_tx i;
          covenant_public_key = sym a.same_key i;
          covenant_address = sym a.same_address i;
          spend_description = record {
            control_block = sym a.same_control_block i;
            script_leaf = sym a.same_leaf i;
          };
        };
      }

  -- Under the laws of btcstaking, on heights of 32 bits and with parameters in range, the code
  -- goes on to the wallet with a request exactly when the conditions of docs/validation.md hold
  -- for what the queries returned, and the request is then the one that they describe.
  pub signing_request_iff :
      (signing_request staking net unbonding_tx staker_sig key info best_block params ≡ ok request)
      ↔ IsApproved staking net unbonding_tx staker_sig key info best_block params request
  signing_request_iff = (
    λ h. Passes-IsApproved (
        signing_request-Passes staking net unbonding_tx staker_sig key info best_block params
          request h),
    λ a.
        Passes-signing_request staking net unbonding_tx staker_sig key info best_block params
          request (IsApproved-Passes a),
  )
