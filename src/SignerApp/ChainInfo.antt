-- ===== src/SignerApp/ChainInfo.antt =====
-- signerapp/btc_chain_info.go
pub mod Laws
use covenant_signer.Prelude.{ℕ, ◌++◌, Bool, true, false, Option, none, some}
use covenant_signer.Go.Text.{Bytes, str}
use covenant_signer.Go.Outcome.{Outcome, ok, err, new, errorf, dereference, ◌>>=◌}
use covenant_signer.Go.Exec.{Exec, exec_or, lift}
use covenant_signer.Go.Exec
use covenant_signer.Btc.{Btc}
use covenant_signer.Btc.Rpc.{Rpc, TxConfirmation}
use covenant_signer.BtcClient.Status.{TxStatus, tx_not_found, tx_in_mem_pool, tx_in_chain}
use covenant_signer.BtcClient.Node
use covenant_signer.SignerApp.Interfaces.{TxInfo, BtcChainInfo}

module _ {btc : Btc} where
  -- What `TxByHash` makes of the details: a status other than TxInChain is an error, and otherwise
  -- the confirmation is read.
  unfoldable pub tx_info_of :
      btc.Hash → Option (TxConfirmation btc) × TxStatus → Outcome (TxInfo btc)
  unfolding dereference
  tx_info_of tx_hash (conf, tx_in_chain) = do
    c ← dereference conf
    ok (record { tx = c.tx; tx_inclusion_height = c.block_height })
  tx_info_of tx_hash (conf, tx_not_found) =
      err (new (str "tx with hash " ++ (btc.hash_string tx_hash ++ str " is not in chain")))
  tx_info_of tx_hash (conf, tx_in_mem_pool) =
      err (new (str "tx with hash " ++ (btc.hash_string tx_hash ++ str " is not in chain")))

module _ {btc : Btc} {W : Type 0} (rpc : Rpc btc W) where
  unfoldable pub tx_by_hash : btc.Hash → Bytes → Exec W (TxInfo btc)
  unfolding tx_info_of
  tx_by_hash tx_hash pk_script =
      Exec.◌>>=◌
        (exec_or (errorf (str "failed to get tx by hash")) (Node.tx_details rpc tx_hash pk_script))
        (λ details. lift (tx_info_of tx_hash details))

  unfoldable pub best_block_height : Exec W ℕ
  best_block_height = Node.best_block_height rpc

  abbrev pub bitcoind_chain_info : BtcChainInfo btc W
  bitcoind_chain_info = record { tx_by_hash = tx_by_hash; best_block_height = best_block_height }
