-- ===== src/SignerApp/PrivKeySigner.antt =====
-- signerapp/btc_priv_key_signer.go. The private key is zeroed after signing; no later step reads it,
-- so the zeroing is left out.
pub mod Laws
use covenant_signer.Go.Text.{str}
use covenant_signer.Go.Outcome.{ok, or_fail, errorf}
use covenant_signer.Go.Exec.{Exec, exec_or, lift, ◌>>=◌, ◌>>◌}
use covenant_signer.Btc.{Btc, Staking}
use covenant_signer.Btc.Rpc.{Rpc}
use covenant_signer.BtcClient.Node
use covenant_signer.SignerApp.Interfaces.{SigningRequest, SigningResult, ExternalBtcSigner}

module _ {btc : Btc} (staking : Staking btc) {W : Type 0} (rpc : Rpc btc W) where
  unfoldable pub raw_signature : SigningRequest btc → Exec W (SigningResult btc)
  raw_signature request = do
    lift (
        or_fail (errorf (str "invalid unbonding transaction received for signing"))
          (staking.is_simple_transfer request.unbonding_transaction))
    key ←
        exec_or (errorf (str "failed to retrieve covenant key for signing"))
          (Node.dump_private_key rpc request.covenant_address)
    sig ← lift (
        or_fail (errorf (str "failed to sign transaction")) (
          staking.sign_tx_with_one_script_spend_input_from_tap_leaf request.unbonding_transaction
            request.staking_output key request.spend_description.script_leaf))
    lift (ok (record { signature = sig }))

  abbrev pub priv_key_signer : ExternalBtcSigner btc W
  priv_key_signer = record { raw_signature = raw_signature }
