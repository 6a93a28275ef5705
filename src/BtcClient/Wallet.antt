-- ===== src/BtcClient/Wallet.antt =====
-- btcclient/client.go: transactions that the node's wallet funds.
pub mod Laws
use covenant_signer.Prelude.{Bool, true, not, List}
use covenant_signer.Prelude.Int.{ℤ}
use covenant_signer.Go.Text.{str}
use covenant_signer.Go.Outcome.{ok, new, fail_if, or_err}
use covenant_signer.Go.Exec.{Exec, call, lift, ◌>>=◌, ◌>>◌}
use covenant_signer.Btc.{Btc, TxOut}
use covenant_signer.Btc.Rpc.{Rpc}
use covenant_signer.BtcClient.Node.{sign_raw_transaction}
use covenant_signer.BtcClient.Inputs.{
  Utxo, results_to_utxos, amount_less, TxAuthor, build_tx_from_outputs,
}

module _ {btc : Btc} {W : Type 0} (rpc : Rpc btc W) where
  unfoldable pub list_outputs : Bool → Exec W (List (Utxo btc))
  list_outputs only_spendable = do
    utxo_results ← call rpc.list_unspent
    lift (results_to_utxos rpc utxo_results only_spendable)

  module _ (author : TxAuthor btc) where
    unfoldable pub create_transaction : List TxOut → ℤ → btc.Address → Exec W btc.MsgTx
    create_transaction outputs fee_rate_per_kb change_address = do
      utxo_results ← call rpc.list_unspent
      utxos ← lift (results_to_utxos rpc utxo_results true)
      change_script ← lift (or_err (author.pay_to_addr_script change_address))
      lift (
          build_tx_from_outputs author (author.sort_reverse amount_less utxos) outputs
            fee_rate_per_kb change_script)

    unfoldable pub create_and_sign_tx : List TxOut → ℤ → btc.Address → Exec W btc.MsgTx
    unfolding create_transaction
    create_and_sign_tx outputs fee_rate_per_kb change_address = do
      tx ← create_transaction outputs fee_rate_per_kb change_address
      signed ← sign_raw_transaction rpc tx
      lift (fail_if (not signed.1) (new (str "not all transactions inputs could be signed")))
      lift (ok signed.0)
