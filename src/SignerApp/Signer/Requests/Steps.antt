-- ===== src/SignerApp/Signer/Requests/Steps.antt =====
-- The chain of `signing_request`, with the value of each of its steps.
use covenant_signer.Prelude.{
  ℕ, ap, not, ◌≡◌, refl, ◌↔◌, Bool, true, false, some, [], ◌∷◌, arith, head?,
}
use covenant_signer.Prelude.Int.{ℤ}
use covenant_signer.Go.Outcome.{
  ok, ok-injective, bind-eq-ok, first, or_fail, or_err-eq-ok, first-eq-ok, first_of_head,
  fail_if-eq-ok, answer, or_err,
}
use covenant_signer.Btc.{Btc, Staking, ParsedV0StakingTx, SpendInfo}
use covenant_signer.SignerApp.Interfaces.{BabylonParams, TxInfo, SigningRequest}
use covenant_signer.SignerApp.Signer.Checks.{
  signing_request, wrap_invalid_signing_request_error, check_covenant_member, check_confirmations,
  check_output_index, check_staking_time, check_staking_amount, unbonding_value,
  check_unbonding_output, unbonding_path, check_staker_signature, pub_key_to_address,
  outputs_are_equal,
}
use covenant_signer.SignerApp.Signer.Approval.{outputs_are_equal_iff}

not-eq-false : {b : Bool} → not b ≡ false → b ≡ true
not-eq-false {b} h = ground arith

-- The chain of `signing_request` with the value of each step.
pub record Passes {btc : Btc} (staking : Staking btc) (net : btc.Network) (unbonding_tx : btc.MsgTx)
    (staker_sig : btc.Signature) (key : btc.PublicKey) (info : TxInfo btc) (best_block : ℕ)
    (params : BabylonParams btc) (request : SigningRequest btc) : Type 0 where
  pub member : check_covenant_member key params info ≡ ok tt
  pub deep : check_confirmations best_block info params ≡ ok tt
  pub parsed : ParsedV0StakingTx btc
  pub parses :
      or_fail wrap_invalid_signing_request_error (
        staking.parse_v0_staking_tx info.tx params.magic_bytes params.covenant_public_keys
          params.covenant_quorum net)
      ≡ ok parsed
  pub input : btc.TxIn
  pub spends : first (btc.tx_in unbonding_tx) ≡ ok input
  pub index : check_output_index {btc = btc} (btc.previous_out_point input) parsed ≡ ok tt
  pub time : check_staking_time (btc.previous_out_point input).hash parsed params ≡ ok tt
  pub amount : check_staking_amount (btc.previous_out_point input).hash parsed params ≡ ok tt
  pub value : ℤ
  pub left : unbonding_value parsed params ≡ ok value
  pub pays : check_unbonding_output staking net unbonding_tx params parsed value ≡ ok tt
  pub path : SpendInfo btc
  pub has_path : unbonding_path staking net params parsed ≡ ok path
  pub signed : check_staker_signature staking unbonding_tx staker_sig parsed path ≡ ok tt
  pub address : btc.Address
  pub has_address : pub_key_to_address btc net key ≡ ok address
  pub built :
      record {
        staking_output = parsed.staking_output;
        unbonding_transaction = unbonding_tx;
        covenant_public_key = key;
        covenant_address = address;
        spend_description = record {
          control_block = path.control_block;
          script_leaf = path.revealed_leaf;
        };
      }
      ≡ request

module _ {btc : Btc} (staking : Staking btc) where
  pub check_unbonding_output_iff :
      (net : btc.Network) (tx : btc.MsgTx) (params : BabylonParams btc)
      (parsed : ParsedV0StakingTx btc) (value : ℤ)
      → (check_unbonding_output staking net tx params parsed value ≡ ok tt) ↔ (
          (built : staking.UnbondingInfo) × (staking.build_unbonding_info parsed.staker_public_key
              (parsed.finality_provider_public_key ∷ [])
              params.covenant_public_keys
              params.covenant_quorum
              params.unbonding_time
              value
              net
            ≡ answer built)
          × (head? (btc.tx_out tx) ≡ some (staking.unbonding_output built)))
  unfolding check_unbonding_output first
  check_unbonding_output_iff net tx params parsed value =
      let reply =
        staking.build_unbonding_info parsed.staker_public_key
          (parsed.finality_provider_public_key ∷ []) params.covenant_public_keys
          params.covenant_quorum params.unbonding_time value net in
      (
        λ h.
            let (built, builds, h₁) = bind-eq-ok (or_err reply) _ h in
            let (output, listed, h₂) = bind-eq-ok (first (btc.tx_out tx)) _ h₁ in
            let same = not-eq-false (
              fail_if-eq-ok (not (outputs_are_equal (staking.unbonding_output built) output)) _
                h₂) in
            (
              built,
              or_err-eq-ok reply builds,
              rw ((outputs_are_equal_iff (staking.unbonding_output built) output).0 same)
                  (first-eq-ok (btc.tx_out tx) listed),
            ),
        λ (built, builds, pays).
            let output = staking.unbonding_output built in
            rw (
              builds,
              first_of_head (btc.tx_out tx) pays,
              (outputs_are_equal_iff output output).1 refl,
            ),
      )

  pub unbonding_path_iff :
      (net : btc.Network) (params : BabylonParams btc) (parsed : ParsedV0StakingTx btc)
      (path : SpendInfo btc)
      → (unbonding_path staking net params parsed ≡ ok path) ↔ (
          (info : staking.StakingInfo) × (staking.build_staking_info parsed.staker_public_key
              (parsed.finality_provider_public_key ∷ [])
              params.covenant_public_keys
              params.covenant_quorum
              parsed.staking_time
              parsed.staking_output.value
              net
            ≡ answer info)
          × (staking.unbonding_path_spend_info info ≡ answer path))
  unfolding unbonding_path
  unbonding_path_iff net params parsed path =
      let reply =
        staking.build_staking_info parsed.staker_public_key
          (parsed.finality_provider_public_key ∷ []) params.covenant_public_keys
          params.covenant_quorum parsed.staking_time parsed.staking_output.value net in
      (
        λ h.
            let (info, builds, h₁) = bind-eq-ok (or_err reply) _ h in
            (info, or_err-eq-ok reply builds, or_err-eq-ok _ h₁),
        λ (info, builds, found). rw (builds, found),
      )

module _ {btc : Btc} (staking : Staking btc) (net : btc.Network) (unbonding_tx : btc.MsgTx)
    (staker_sig : btc.Signature) (key : btc.PublicKey) (info : TxInfo btc) (best_block : ℕ)
    (params : BabylonParams btc) (request : SigningRequest btc) where
  pub signing_request-Passes :
      signing_request staking net unbonding_tx staker_sig key info best_block params ≡ ok request
      → Passes staking net unbonding_tx staker_sig key info best_block params request
  unfolding signing_request
  signing_request-Passes h =
      let (_, member, h₁) = bind-eq-ok (check_covenant_member key params info) _ h in
      let (_, deep, h₂) = bind-eq-ok (check_confirmations best_block info params) _ h₁ in
      let (parsed, parses, h₃) =
        bind-eq-ok
          (or_fail wrap_invalid_signing_request_error (
            staking.parse_v0_staking_tx info.tx params.magic_bytes params.covenant_public_keys
              params.covenant_quorum net))
          _ h₂ in
      let (input, spends, h₄) = bind-eq-ok (first (btc.tx_in unbonding_tx)) _ h₃ in
      let point = btc.previous_out_point input in
      let (_, index, h₅) = bind-eq-ok (check_output_index {btc = btc} point parsed) _ h₄ in
      let (_, time, h₆) = bind-eq-ok (check_staking_time point.hash parsed params) _ h₅ in
      let (_, amount, h₇) = bind-eq-ok (check_staking_amount point.hash parsed params) _ h₆ in
      let (value, left, h₈) = bind-eq-ok (unbonding_value parsed params) _ h₇ in
      let (_, pays, h₉) =
        bind-eq-ok (check_unbonding_output staking net unbonding_tx params parsed value) _ h₈ in
      let (path, has_path, h₁₀) = bind-eq-ok (unbonding_path staking net params parsed) _ h₉ in
      let (_, signed, h₁₁) =
        bind-eq-ok (check_staker_signature staking unbonding_tx staker_sig parsed path) _ h₁₀ in
      let (address, has_address, h₁₂) = bind-eq-ok (pub_key_to_address btc net key) _ h₁₁ in
      record {
        member = member;
        deep = deep;
        parsed = parsed;
        parses = parses;
        input = input;
        spends = spends;
        index = index;
        time = time;
        amount = amount;
        value = value;
        left = left;
        pays = pays;
        path = path;
        has_path = has_path;
        signed = signed;
        address = address;
        has_address = has_address;
        built = ok-injective h₁₂;
      }

  pub Passes-signing_request :
      Passes staking net unbonding_tx staker_sig key info best_block params request
      → signing_request staking net unbonding_tx staker_sig key info best_block params ≡ ok request
  unfolding signing_request
  Passes-signing_request p =
      rw
        (
          p.member, p.deep, p.parses, p.spends, p.index, p.time, p.amount, p.left, p.pays,
          p.has_path, p.signed, p.has_address,
        )
        (ap ok p.built)
