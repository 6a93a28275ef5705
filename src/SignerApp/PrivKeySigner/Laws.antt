-- ===== src/SignerApp/PrivKeySigner/Laws.antt =====
-- What the private key wallet signs, and with which key.
use covenant_signer.Prelude.{◌≡◌, ap, ◌∙◌}
use covenant_signer.Go.Text.{str}
use covenant_signer.Go.Outcome.{
  ok, ok-injective, errorf, answer, or_fail, or_fail-eq-ok, or_err, or_err-eq-ok, map_error,
  map_error-eq-ok,
}
use covenant_signer.Go.Exec.{continue-eq-ok}
use covenant_signer.Btc.{Btc, Staking}
use covenant_signer.Btc.Rpc.{Rpc}
use covenant_signer.BtcClient.Node
use covenant_signer.SignerApp.Interfaces.{SigningRequest, SigningResult}
use covenant_signer.SignerApp.PrivKeySigner.{raw_signature}

module _ {btc : Btc} (staking : Staking btc) {W : Type 0} (rpc : Rpc btc W) where
  -- The node gave out the key of the request's address, and the transaction was signed with it for
  -- the leaf of the staking output.
  pub record SignedByKey (request : SigningRequest btc) (w : W) (result : SigningResult btc)
      (w' : W) : Type 0 where
    pub simple : staking.is_simple_transfer request.unbonding_transaction ≡ answer tt
    pub wif : rpc.Wif
    pub dumped : rpc.dump_priv_key request.covenant_address w ≡ (answer wif, w')
    pub signs :
        staking.sign_tx_with_one_script_spend_input_from_tap_leaf request.unbonding_transaction
          request.staking_output
          (rpc.priv_key wif)
          request.spend_description.script_leaf
        ≡ answer result.signature

  dump_private_key-eq-ok :
      (address : btc.Address) (w w' : W) (key : btc.PrivateKey)
      → Node.dump_private_key rpc address w ≡ (ok key, w')
      → (wif : rpc.Wif) × (rpc.dump_priv_key address w ≡ (answer wif, w'))
        × (rpc.priv_key wif ≡ key)
  unfolding Node.dump_private_key
  dump_private_key-eq-ok address w w' key h =
      let dumped = rpc.dump_priv_key address w in
      let (wif, e, h₁) = continue-eq-ok (or_err dumped.0) _ dumped.1 h in
      let given = or_err-eq-ok dumped.0 e in
      (wif, λ i. (given i, (h₁ i).1), ok-injective (ap (λ x. x.0) h₁))

  -- A signature of the private key wallet is that of the key which the node dumped for the
  -- request's covenant address, over the request's transaction, staking output and leaf, and the
  -- transaction is a simple transfer.
  pub priv_key_signer-SignedByKey :
      (request : SigningRequest btc) (w w' : W) (result : SigningResult btc)
      → raw_signature staking rpc request w ≡ (ok result, w')
      → SignedByKey request w result w'
  unfolding raw_signature
  priv_key_signer-SignedByKey request w w' result h =
      let sanity = staking.is_simple_transfer request.unbonding_transaction in
      let wrap₁ = errorf (str "invalid unbonding transaction received for signing") in
      let (_, e₁, h₁) = continue-eq-ok (or_fail wrap₁ sanity) _ w h in
      let dump = Node.dump_private_key rpc request.covenant_address w in
      let (key, e₂, h₂) =
        continue-eq-ok
          (map_error (errorf (str "failed to retrieve covenant key for signing")) dump.0) _ dump.1
          h₁ in
      let has_key = map_error-eq-ok (str "failed to retrieve covenant key for signing") dump.0 e₂ in
      let (wif, dumped, same) =
        dump_private_key-eq-ok request.covenant_address w dump.1 key (λ i. (has_key i, dump.1)) in
      let reply =
        staking.sign_tx_with_one_script_spend_input_from_tap_leaf request.unbonding_transaction
          request.staking_output key request.spend_description.script_leaf in
      let (sig, e₃, h₃) =
        continue-eq-ok (or_fail (errorf (str "failed to sign transaction")) reply) _ dump.1 h₂ in
      record {
        simple = or_fail-eq-ok wrap₁ sanity e₁;
        wif = wif;
        dumped = dumped ∙ (λ i. (answer wif, (h₃ i).1));
        signs = rw same (
            or_fail-eq-ok (errorf (str "failed to sign transaction")) reply e₃
            ∙ ap (λ r. answer r.signature) (ok-injective (ap (λ x. x.0) h₃)));
      }
