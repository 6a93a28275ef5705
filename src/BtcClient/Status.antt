-- ===== src/BtcClient/Status.antt =====
-- btcclient/client.go: the status of a transaction.
use covenant_signer.Go.Text.{str}
use covenant_signer.Go.Outcome.{Outcome, ok, panicked}
use covenant_signer.Btc.Rpc.{
  TxConfStatus, tx_not_found_index, tx_found_mempool, tx_found_index, tx_not_found_manually,
  tx_found_manually, other_status,
}

pub data TxStatus : Type 0 where
  tx_not_found tx_in_mem_pool tx_in_chain : TxStatus

-- `nofitierStateToClientState`, the panic's text without the printed state
unfoldable pub nofitier_state_to_client_state : TxConfStatus → Outcome TxStatus
nofitier_state_to_client_state tx_not_found_index = ok tx_not_found
nofitier_state_to_client_state tx_found_mempool = ok tx_in_mem_pool
nofitier_state_to_client_state tx_found_index = ok tx_in_chain
nofitier_state_to_client_state tx_not_found_manually = ok tx_not_found
nofitier_state_to_client_state tx_found_manually = ok tx_in_chain
nofitier_state_to_client_state (other_status n) = panicked (str "unknown notifier state")
