-- ===== src/SignerApp/Signer/Approval.antt =====
-- When a signing request may be signed, as docs/validation.md lists the conditions, and what each
-- check of the code decides.
use covenant_signer.Prelude.{
  ℕ, ◌+◌, ◌≤◌, ◌≡◌, ◌↔◌, true, some, List, [], ◌∷◌, arith, Any, head?, bytes_equal_iff,
}
use covenant_signer.Prelude.Int.{
  ℤ, pos, ◌-ℤ◌, ◌≤ℤ◌, ◌<ℤ◌, IsUint16, IsUint32, IsInt64, -ℤ_parts, eqb_ℤ→eq,
}
use covenant_signer.Go.Text.{Bytes}
use covenant_signer.Go.Outcome.{answer, ok}
use covenant_signer.Btc.{Btc, Staking, TxOut, OutPointOf, ParsedV0StakingTx, SpendInfo}
use covenant_signer.SignerApp.Interfaces.{BabylonParams, TxInfo, SigningRequest}
use covenant_signer.SignerApp.Signer.Checks.{
  is_covenant_member, outputs_are_equal, confirmations, check_covenant_member, check_confirmations,
  check_output_index, check_staking_time, check_staking_amount, unbonding_value,
}

-- The ranges of the parameters' fields: those of their types, and no negative fee or minimum, which
-- the parser of the parameters sees to.
pub record InRange {btc : Btc} (params : BabylonParams btc) : Type 0 where
  pub depth : IsUint16 params.confirmation_depth
  pub fee : IsInt64 params.unbonding_fee
  pub fee_nonneg : pos 0 ≤ℤ params.unbonding_fee
  pub max_amount : IsInt64 params.max_staking_amount
  pub min_nonneg : pos 0 ≤ℤ params.min_staking_amount

-- What babylon/btcstaking documents of its functions: the sanity check passes only transactions
-- with one input and one output, and a staking output is one of the at most 2^32 of its
-- transaction.
pub record StakingLaws {btc : Btc} (staking : Staking btc) : Type 0 where
  pub one_input :
      (tx : btc.MsgTx)
      → staking.check_pre_signed_unbonding_tx_sanity tx ≡ answer tt
      → (i : btc.TxIn) × (btc.tx_in tx ≡ i ∷ [])
  pub one_output :
      (tx : btc.MsgTx)
      → staking.check_pre_signed_unbonding_tx_sanity tx ≡ answer tt
      → (o : TxOut) × (btc.tx_out tx ≡ o ∷ [])
  pub output_idx :
      (tx : btc.MsgTx) (tag : Bytes) (keys : List btc.PublicKey) (quorum : ℕ) (net : btc.Network)
      (parsed : ParsedV0StakingTx btc)
      → staking.parse_v0_staking_tx tx tag keys quorum net ≡ answer parsed
      → (n : ℕ) × (parsed.staking_output_idx ≡ pos n) × IsUint32 n

module _ (btc : Btc) where
  -- The key equals one of the committee's.
  pub is_covenant_member_iff :
      (key : btc.PublicKey) (keys : List btc.PublicKey)
      → (is_covenant_member btc key keys ≡ true) ↔ Any (λ k. btc.is_equal key k ≡ true) keys
  unfolding is_covenant_member
  is_covenant_member_iff key [] = ground arith
  is_covenant_member_iff key (k ∷ keys) = ground (arith, is_covenant_member_iff key keys)

-- Two outputs pass `outputsAreEqual` exactly when they are equal.
pub outputs_are_equal_iff : (a b : TxOut) → (outputs_are_equal a b ≡ true) ↔ (a ≡ b)
unfolding outputs_are_equal
outputs_are_equal_iff a b =
    grind (arith, bytes_equal_iff a.pk_script b.pk_script, eqb_ℤ→eq a.value b.value)

module _ {btc : Btc} where
  pub check_covenant_member_iff :
      (key : btc.PublicKey) (params : BabylonParams btc) (info : TxInfo btc)
      → (check_covenant_member key params info ≡ ok tt)
        ↔ Any (λ k. btc.is_equal key k ≡ true) params.covenant_public_keys
  unfolding check_covenant_member
  check_covenant_member_iff key params info =
      ground (arith, is_covenant_member_iff btc key params.covenant_public_keys)

  -- On 32 bit heights no `int64` operation overflows: the block of the staking transaction counts
  -- as one confirmation, and the number is negative if the best block is far below it.
  pub confirmations_lem :
      (best_block : ℕ) (info : TxInfo btc)
      → IsUint32 best_block
      → IsUint32 info.tx_inclusion_height
      → confirmations best_block info ≡ pos (best_block + 1) -ℤ pos info.tx_inclusion_height
  unfolding confirmations ◌-ℤ◌
  confirmations_lem best_block info b h = ground arith

  -- On heights of 32 bits the check on the confirmations passes exactly if the height of the
  -- staking transaction plus the required depth is at most the best height plus one: no `int64`
  -- operation overflows.
  pub check_confirmations_iff :
      (best_block : ℕ) (info : TxInfo btc) (params : BabylonParams btc)
      → IsUint32 best_block
      → IsUint32 info.tx_inclusion_height
      → (check_confirmations best_block info params ≡ ok tt)
        ↔ (info.tx_inclusion_height + params.confirmation_depth ≤ best_block + 1)
  unfolding check_confirmations
  check_confirmations_iff best_block info params b h =
      rw (confirmations_lem best_block info b h)
        (ground (arith, -ℤ_parts (pos (best_block + 1)) (pos info.tx_inclusion_height)))

  pub check_output_index_iff :
      (input : OutPointOf btc.Hash) (parsed : ParsedV0StakingTx btc) (n : ℕ)
      → parsed.staking_output_idx ≡ pos n
      → IsUint32 n
      → (check_output_index input parsed ≡ ok tt) ↔ (parsed.staking_output_idx ≡ pos input.index)
  unfolding check_output_index
  check_output_index_iff input parsed n e h = rw e (ground arith)

  pub check_staking_time_iff :
      (hash : btc.Hash) (parsed : ParsedV0StakingTx btc) (params : BabylonParams btc)
      → (check_staking_time hash parsed params ≡ ok tt) ↔ (
          (params.min_staking_time ≤ parsed.staking_time)
          × (parsed.staking_time ≤ params.max_staking_time))
  unfolding check_staking_time
  check_staking_time_iff hash parsed params = ground arith

  pub check_staking_amount_iff :
      (hash : btc.Hash) (parsed : ParsedV0StakingTx btc) (params : BabylonParams btc)
      → (check_staking_amount hash parsed params ≡ ok tt) ↔ (
          (params.min_staking_amount ≤ℤ parsed.staking_output.value)
          × (parsed.staking_output.value ≤ℤ params.max_staking_amount))
  unfolding check_staking_amount
  check_staking_amount_iff hash parsed params = ground arith

  -- With parameters in range and an amount within their bounds, the output's value is returned
  -- exactly if the amount exceeds the fee, and is the amount less the fee, with no overflow.
  pub unbonding_value_iff :
      (parsed : ParsedV0StakingTx btc) (params : BabylonParams btc) (value : ℤ)
      → InRange params
      → params.min_staking_amount ≤ℤ parsed.staking_output.value
      → parsed.staking_output.value ≤ℤ params.max_staking_amount
      → (unbonding_value parsed params ≡ ok value) ↔ (
          (params.unbonding_fee <ℤ parsed.staking_output.value)
          × (value ≡ parsed.staking_output.value -ℤ params.unbonding_fee))
  unfolding unbonding_value ◌-ℤ◌
  unbonding_value_iff parsed params value range lo hi = ground arith

-- The conditions under which a request is signed, and the request that the wallet is then sent.
pub record IsApproved {btc : Btc} (staking : Staking btc) (net : btc.Network)
    (unbonding_tx : btc.MsgTx) (staker_sig : btc.Signature) (key : btc.PublicKey)
    (info : TxInfo btc) (best_block : ℕ) (params : BabylonParams btc) (request : SigningRequest btc)
    : Type 0 where
  -- the key is one of the committee's at the height of the staking transaction
  pub is_member : Any (λ k. btc.is_equal key k ≡ true) params.covenant_public_keys
  pub is_deep : info.tx_inclusion_height + params.confirmation_depth ≤ best_block + 1
  -- the staking transaction reads as one, and the input spends its staking output
  pub parsed : ParsedV0StakingTx btc
  pub parses :
      staking.parse_v0_staking_tx info.tx params.magic_bytes params.covenant_public_keys
        params.covenant_quorum net
      ≡ answer parsed
  pub input : btc.TxIn
  pub spends : head? (btc.tx_in unbonding_tx) ≡ some input
  pub output_index : parsed.staking_output_idx ≡ pos (btc.previous_out_point input).index
  pub min_time : params.min_staking_time ≤ parsed.staking_time
  pub max_time : parsed.staking_time ≤ params.max_staking_time
  pub min_amount : params.min_staking_amount ≤ℤ parsed.staking_output.value
  pub max_amount : parsed.staking_output.value ≤ℤ params.max_staking_amount
  pub covers_fee : params.unbonding_fee <ℤ parsed.staking_output.value
  -- the output is the one that the parameters prescribe, the stake less the fee
  pub unbonding_info : staking.UnbondingInfo
  pub builds_unbonding :
      staking.build_unbonding_info parsed.staker_public_key
        (parsed.finality_provider_public_key ∷ [])
        params.covenant_public_keys
        params.covenant_quorum
        params.unbonding_time
        (parsed.staking_output.value -ℤ params.unbonding_fee)
        net
      ≡ answer unbonding_info
  pub pays : head? (btc.tx_out unbonding_tx) ≡ some (staking.unbonding_output unbonding_info)
  -- the staker signed for the unbonding path of the staking output
  pub staking_info : staking.StakingInfo
  pub builds_staking :
      staking.build_staking_info parsed.staker_public_key
        (parsed.finality_provider_public_key ∷ [])
        params.covenant_public_keys
        params.covenant_quorum
        parsed.staking_time
        parsed.staking_output.value
        net
      ≡ answer staking_info
  pub path : SpendInfo btc
  pub has_path : staking.unbonding_path_spend_info staking_info ≡ answer path
  pub is_signed :
      staking.verify_transaction_sig_with_output unbonding_tx parsed.staking_output
        path.revealed_leaf.script parsed.staker_public_key
        (btc.serialize_signature staker_sig)
      ≡ answer tt
  pub address : btc.Address
  pub has_address :
      btc.new_address_witness_pub_key_hash (btc.hash160 (btc.serialize_compressed key)) net
      ≡ answer address
  -- the wallet is sent this transaction, this output, the key with its address, and that path
  pub same_output : request.staking_output ≡ parsed.staking_output
  pub same_tx : request.unbonding_transaction ≡ unbonding_tx
  pub same_key : request.covenant_public_key ≡ key
  pub same_address : request.covenant_address ≡ address
  pub same_control_block : request.spend_description.control_block ≡ path.control_block
  pub same_leaf : request.spend_description.script_leaf ≡ path.revealed_leaf
