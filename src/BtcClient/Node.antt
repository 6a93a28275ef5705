-- ===== src/BtcClient/Node.antt =====
-- btcclient/client.go: the calls that hand a node's answers on.
use covenant_signer.Prelude.{ℕ, Bool, true, Option, none, some}
use covenant_signer.Prelude.Int.{ℤ, to_uint32}
use covenant_signer.Go.Text.{GoString, Bytes, str}
use covenant_signer.Go.Outcome.{or_err, ok}
use covenant_signer.Go.Exec.{Exec, call, lift, ◌>>=◌}
use covenant_signer.Btc.{Btc}
use covenant_signer.Btc.Rpc.{Rpc, Psbt, Packet, TxConfirmation}
use covenant_signer.BtcClient.Status.{TxStatus, nofitier_state_to_client_state}

unfoldable pub tx_not_found_err_msg_bitcoind : GoString
tx_not_found_err_msg_bitcoind = str "No such mempool or blockchain transaction"

-- A `BtcClient` is its `RpcClient`.
module _ {btc : Btc} {W : Type 0} (rpc : Rpc btc W) where
  unfoldable pub send_tx : btc.MsgTx → Exec W btc.Hash
  send_tx tx = call (rpc.send_raw_transaction tx true)

  unfoldable pub unlock_wallet : ℤ → GoString → Exec W (Unit {0})
  unlock_wallet timeout_sec passphrase = call (rpc.wallet_passphrase passphrase timeout_sec)

  unfoldable pub dump_private_key : btc.Address → Exec W btc.PrivateKey
  dump_private_key address = do wif ← call (rpc.dump_priv_key address); lift (ok (rpc.priv_key wif))

  unfoldable pub sign_raw_transaction : btc.MsgTx → Exec W (btc.MsgTx × Bool)
  sign_raw_transaction tx = call (rpc.sign_raw_transaction_with_wallet tx)

  unfoldable pub tx_details : btc.Hash → Bytes → Exec W (Option (TxConfirmation btc) × TxStatus)
  unfolding nofitier_state_to_client_state
  tx_details tx_hash pk_script = do
    request ← lift (or_err (rpc.new_conf_request tx_hash pk_script))
    details ← call (rpc.conf_details_from_tx_index request tx_not_found_err_msg_bitcoind)
    status ← lift (nofitier_state_to_client_state details.1)
    lift (ok (details.0, status))

  unfoldable pub sign_psbt :
      (psbt : Psbt btc)
      → Packet psbt.Others psbt.OtherParts
      → Exec W (Packet psbt.Others psbt.OtherParts)
  sign_psbt psbt packet = do
    psbt_encoded ← lift (or_err (psbt.b64_encode packet))
    result ← call (rpc.wallet_process_psbt psbt_encoded (some true) (str "DEFAULT") none)
    decoded_bytes ← lift (or_err (psbt.base64_decode result))
    lift (or_err (psbt.new_from_raw_bytes decoded_bytes))

  unfoldable pub best_block_height : Exec W ℕ
  unfolding to_uint32
  best_block_height = do count ← call rpc.get_block_count; lift (ok (to_uint32 count))
