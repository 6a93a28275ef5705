-- ===== src/SignerApp/PsbtSigner.antt =====
-- signerapp/btc_psbt_signer.go
pub mod Laws
use covenant_signer.Prelude.{ℕ, ◌≡◌, Option, some, List, [], ◌∷◌, ◌==◌, length}
use covenant_signer.Go.Text.{Bytes, str}
use covenant_signer.Go.Outcome.{
  Outcome, ok, err, panicked, new, or_fail, errorf, first, fail_if, ◌>>=◌, ◌>>◌,
}
use covenant_signer.Go.Exec.{Exec, exec_or, lift}
use covenant_signer.Go.Exec
use covenant_signer.Btc.{Btc, Staking}
use covenant_signer.Btc.Rpc.{
  Rpc, Psbt, Packet, PInput, Bip32Derivation, TaprootTapLeafScript, TaprootScriptSpendSig,
}
use covenant_signer.BtcClient.Node
use covenant_signer.SignerApp.Interfaces.{SigningRequest, SigningResult, ExternalBtcSigner}

module _ {btc : Btc} (psbt : Psbt btc) where
  -- `psbtPacket.Inputs[0].X = …`: the rest of the packet stays.
  unfoldable pub set_first_input :
      (PInput psbt.Others → PInput psbt.Others)
      → Packet psbt.Others psbt.OtherParts
      → Outcome (Packet psbt.Others psbt.OtherParts)
  set_first_input f packet = elim packet.inputs [
    | [] ↦ panicked (str "index out of range [0] with length 0")
    | x ∷ xs ↦ ok (record packet { inputs = f x ∷ xs })
  ]

  -- The packet that the wallet is sent: the transaction, with the staking output, the key and the
  -- leaf to sign for in its first input.
  unfoldable pub unsigned_packet : SigningRequest btc → Outcome (Packet psbt.Others psbt.OtherParts)
  unfolding set_first_input first
  unsigned_packet request = do
    input ← first (btc.tx_in request.unbonding_transaction)
    packet ← or_fail (errorf (str "failed to create PSBT packet with unbonding transaction")) (
        psbt.new_packet (btc.previous_out_point input ∷ [])
          (btc.tx_out request.unbonding_transaction) (btc.version request.unbonding_transaction)
          (btc.lock_time request.unbonding_transaction) (psbt.max_tx_in_sequence_num ∷ []))
    packet ←
        set_first_input
          (λ i. record i {
            sighash_type = psbt.sig_hash_default;
            witness_utxo = some request.staking_output;
            bip32_derivation =
                record { pub_key = btc.serialize_compressed request.covenant_public_key } ∷ [];
          })
          packet
    ctrl_block_bytes ←
        or_fail (errorf (str "failed to serialize control block"))
          (btc.control_block_to_bytes request.spend_description.control_block)
    set_first_input
        (λ i. record i {
          taproot_leaf_script =
              record {
                control_block = ctrl_block_bytes;
                script = request.spend_description.script_leaf.script;
                leaf_version = request.spend_description.script_leaf.leaf_version;
              }
              ∷ [];
        })
        packet

  -- The signature that the signed packet holds
  unfoldable pub packet_signature : Packet psbt.Others psbt.OtherParts → Outcome (SigningResult btc)
  unfolding first
  packet_signature signed_packet = do
    input ← first signed_packet.inputs
    fail_if (length input.taproot_script_spend_sig == 0) (
        new (str "no signature found in PSBT packet. Wallet does not maintain covenant public key"))
    spend_sig ← first input.taproot_script_spend_sig
    sig ←
        or_fail (errorf (str "failed to parse schnorr signature in psbt packet"))
          (btc.parse_signature spend_sig.signature)
    ok (record { signature = sig })

  module _ (staking : Staking btc) {W : Type 0} (rpc : Rpc btc W) where
    unfoldable pub raw_signature : SigningRequest btc → Exec W (SigningResult btc)
    raw_signature request =
        Exec.◌>>◌
          (lift (
            or_fail (errorf (str "invalid unbonding transaction"))
              (staking.is_simple_transfer request.unbonding_transaction)))
          (Exec.◌>>=◌ (lift (unsigned_packet request)) λ packet.
            Exec.◌>>=◌
              (exec_or (errorf (str "failed to sign PSBT packet")) (Node.sign_psbt rpc psbt packet))
              (λ signed_packet. lift (packet_signature signed_packet)))

    abbrev pub psbt_signer : ExternalBtcSigner btc W
    psbt_signer = record { raw_signature = raw_signature }
