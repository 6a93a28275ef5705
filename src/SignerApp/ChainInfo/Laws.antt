-- ===== src/SignerApp/ChainInfo/Laws.antt =====
-- What the staking transaction's details say of it: it is in the chain.
use covenant_signer.Prelude.{ℕ, ◌≡◌, refl, ap, sym, ◌∙◌, ◌⊎◌, inl, inr, Option, none, some}
use covenant_signer.Prelude.Int.{pos, IsUint32, to_uint32_of_IsUint32}
use covenant_signer.Go.Text.{Bytes}
use covenant_signer.Go.Outcome.{
  ok, ok-injective, or_err, or_err-eq-ok, map_error, map_error-eq-ok, answer, dereference,
}
use covenant_signer.Go.Exec.{continue-eq-ok}
use covenant_signer.Btc.{Btc}
use covenant_signer.Btc.Rpc.{Rpc, TxConfirmation, TxConfStatus, tx_found_index, tx_found_manually}
use covenant_signer.BtcClient.Status.{
  TxStatus, tx_in_chain, tx_not_found, tx_in_mem_pool, nofitier_state_to_client_state,
}
use covenant_signer.BtcClient.Node
use covenant_signer.BtcClient.Node.{tx_details}
use covenant_signer.SignerApp.Interfaces.{TxInfo}
use covenant_signer.SignerApp.ChainInfo.{tx_info_of, tx_by_hash, best_block_height}

in_chain :
    (s : TxConfStatus)
    → nofitier_state_to_client_state s ≡ ok tx_in_chain
    → (s ≡ tx_found_index) ⊎ (s ≡ tx_found_manually)
unfolding nofitier_state_to_client_state
in_chain TxConfStatus.tx_not_found_index h = cc
in_chain TxConfStatus.tx_found_mempool h = cc
in_chain TxConfStatus.tx_found_index h = inl refl
in_chain TxConfStatus.tx_not_found_manually h = cc
in_chain TxConfStatus.tx_found_manually h = inr refl
in_chain (TxConfStatus.other_status n) h = cc

module _ {btc : Btc} where
  tx_info_of-eq-ok :
      (hash : btc.Hash) (conf : Option (TxConfirmation btc)) (status : TxStatus) (info : TxInfo btc)
      → tx_info_of hash (conf, status) ≡ ok info
      → (status ≡ tx_in_chain)
        × ((c : TxConfirmation btc) × (conf ≡ some c)
            × (info ≡ record { tx = c.tx; tx_inclusion_height = c.block_height }))
  unfolding tx_info_of dereference
  tx_info_of-eq-ok hash conf tx_not_found info h = cc
  tx_info_of-eq-ok hash conf tx_in_mem_pool info h = cc
  tx_info_of-eq-ok hash none tx_in_chain info h = cc
  tx_info_of-eq-ok hash (some c) tx_in_chain info h = (refl, (c, refl, sym (ok-injective h)))

module _ {btc : Btc} {W : Type 0} (rpc : Rpc btc W) where
  -- The answer of the node behind an information on a transaction
  pub record Confirmed (hash : btc.Hash) (pk_script : Bytes) (w : W) (info : TxInfo btc) (w' : W)
      : Type 0 where
    pub request : rpc.ConfRequest
    pub asked : rpc.new_conf_request hash pk_script ≡ answer request
    pub conf : TxConfirmation btc
    pub status : TxConfStatus
    pub answered :
        rpc.conf_details_from_tx_index request Node.tx_not_found_err_msg_bitcoind w
        ≡ (answer (some conf, status), w')
    pub is_in_chain : (status ≡ tx_found_index) ⊎ (status ≡ tx_found_manually)
    pub same_tx : info.tx ≡ conf.tx
    pub same_height : info.tx_inclusion_height ≡ conf.block_height

  tx_details-eq-ok :
      (hash : btc.Hash) (pk_script : Bytes) (w : W) (conf : Option (TxConfirmation btc))
      (status : TxStatus)
      → (tx_details rpc hash pk_script w).0 ≡ ok (conf, status)
      → (request : rpc.ConfRequest) × (rpc.new_conf_request hash pk_script ≡ answer request)
        × ((s : TxConfStatus) × (rpc.conf_details_from_tx_index request
                Node.tx_not_found_err_msg_bitcoind w
              ≡ (answer (conf, s), (tx_details rpc hash pk_script w).1))
            × (nofitier_state_to_client_state s ≡ ok status))
  unfolding tx_details
  tx_details-eq-ok hash pk_script w conf status h =
      let whole : tx_details rpc hash pk_script w
          ≡ (ok (conf, status), (tx_details rpc hash pk_script w).1) =
        ap (λ x. (x, (tx_details rpc hash pk_script w).1)) h in
      let (request, asked, h₁) =
        continue-eq-ok (or_err (rpc.new_conf_request hash pk_script)) _ w whole in
      let reply = rpc.conf_details_from_tx_index request Node.tx_not_found_err_msg_bitcoind w in
      let ((conf₁, s), answered, h₂) = continue-eq-ok (or_err reply.0) _ reply.1 h₁ in
      let (status₁, maps, h₃) = continue-eq-ok (nofitier_state_to_client_state s) _ reply.1 h₂ in
      let same = ok-injective (ap (λ x. x.0) h₃) in
      let replied = or_err-eq-ok reply.0 answered in
      (
        request,
        or_err-eq-ok (rpc.new_conf_request hash pk_script) asked,
        (
          s,
          (λ i. (replied i, reply.1)) ∙ (λ i. (answer ((same i).0, s), (h₃ i).1)),
          maps ∙ (λ i. ok (same i).1),
        ),
      )

  -- A transaction that is returned for a hash and a script is one that the node, asked for this
  -- hash and script in the world of the call, confirmed with a status of being in the chain, and
  -- its height is the confirmed one.
  pub tx_by_hash-Confirmed :
      (hash : btc.Hash) (pk_script : Bytes) (w w' : W) (info : TxInfo btc)
      → tx_by_hash rpc hash pk_script w ≡ (ok info, w')
      → Confirmed hash pk_script w info w'
  unfolding tx_by_hash
  tx_by_hash-Confirmed hash pk_script w w' info h =
      let ((conf, status), e, h₁) =
        continue-eq-ok (map_error _ (tx_details rpc hash pk_script w).0) _ _ h in
      let e₁ = map_error-eq-ok _ (tx_details rpc hash pk_script w).0 e in
      let (in_chain_status, has_conf) = tx_info_of-eq-ok hash conf status info (ap (λ x. x.0) h₁) in
      let same_world = ap (λ x. x.1) h₁ in
      let (c, is_conf, same) = has_conf in
      let (request, asked, (s, answered, maps)) =
        tx_details-eq-ok hash pk_script w conf status e₁ in
      record {
        request = request;
        asked = asked;
        conf = c;
        status = s;
        answered = answered ∙ (λ i. (answer (is_conf i, s), same_world i));
        is_in_chain = in_chain s (maps ∙ ap ok in_chain_status);
        same_tx = ap (λ x. x.tx) same;
        same_height = ap (λ x. x.tx_inclusion_height) same;
      }

  -- For a block count of 32 bits the best block's height is the count, in the world that the
  -- node left.
  pub best_block_height-count :
      (n : ℕ) (w w' : W)
      → IsUint32 n
      → rpc.get_block_count w ≡ (answer (pos n), w')
      → best_block_height rpc w ≡ (ok n, w')
  unfolding best_block_height Node.best_block_height
  best_block_height-count n w w' small h = rw (h, to_uint32_of_IsUint32 n small)
