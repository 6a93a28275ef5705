-- ===== src/BtcClient/Inputs/Results.antt =====
-- Which of the wallet's unspent outputs are used, and when a transaction is built from them.
use covenant_signer.Prelude.{
  ◌≡◌, ◌≢◌, ◌↔◌, refl, true, false, List, [], ◌∷◌, length, ◌==◌, if◌then◌else◌, Bool-cases, inl,
  inr, arith,
}
use covenant_signer.Prelude.Int.{ℤ}
use covenant_signer.Go.Text.{Bytes}
use covenant_signer.Go.Outcome.{ok, answer, bind-eq-ok, or_err-eq-ok, fail_if, fail_if-eq-ok}
use covenant_signer.Btc.{Btc, TxOut}
use covenant_signer.Btc.Rpc.{Rpc, ListUnspentResult}
use covenant_signer.BtcClient.Inputs.{
  Utxo, results_to_utxos, make_input_source, fund, TxAuthor, build_tx_from_outputs,
}

module _ {btc : Btc} {W : Type 0} (rpc : Rpc btc W) where
  -- The results that the wallet can spend
  abbrev pub spendable : List (ListUnspentResult rpc.Float) → List (ListUnspentResult rpc.Float)
  spendable [] = []
  spendable (r ∷ rs) = let rest = spendable rs in if r.spendable then r ∷ rest else rest

  -- With `onlySpendable` a result that is not spendable is not even read: the outputs, or the
  -- error, are those of the spendable results.
  pub results_to_utxos-spendable :
      (rs : List (ListUnspentResult rpc.Float))
      → results_to_utxos rpc rs true ≡ results_to_utxos rpc (spendable rs) false
  unfolding results_to_utxos
  results_to_utxos-spendable [] = refl
  results_to_utxos-spendable (r ∷ rs) = elim (Bool-cases r.spendable) [
    | inl can ↦ rw (can, results_to_utxos-spendable rs)
    | inr cannot ↦ rw (cannot, results_to_utxos-spendable rs)
  ]

nonempty_length {ℓ} : {A : Type ℓ} (xs : List A) → (length xs == 0 ≡ false) ↔ (xs ≢ [])
nonempty_length [] = ((λ h. cc), λ h. absurd (h refl))
nonempty_length (x ∷ xs) = ((λ h e. cc), λ h. ground arith)

module _ {btc : Btc} (author : TxAuthor btc) where
  -- A transaction is built exactly from at least one output of the wallet and for at least one
  -- output, and is then the one that txauthor makes over the input source.
  pub build_tx_from_outputs_iff :
      (utxos : List (Utxo btc)) (outputs : List TxOut) (fee_rate : ℤ) (change_script : Bytes)
      (tx : btc.MsgTx)
      → (build_tx_from_outputs author utxos outputs fee_rate change_script ≡ ok tx) ↔ (
          (utxos ≢ [])
          × (outputs ≢ [])
          × (author.new_unsigned_transaction outputs fee_rate fund
                (make_input_source utxos)
                change_script
                (length change_script)
              ≡ answer tx))
  unfolding build_tx_from_outputs
  build_tx_from_outputs_iff utxos outputs fee_rate change_script tx =
      let reply =
        author.new_unsigned_transaction outputs fee_rate fund (make_input_source utxos)
          change_script (length change_script) in
      (
        (λ h.
            let (_, e₁, h₁) = bind-eq-ok (fail_if (length utxos == 0) _) _ h in
            let (_, e₂, h₂) = bind-eq-ok (fail_if (length outputs == 0) _) _ h₁ in
            (
              (nonempty_length utxos).0 (fail_if-eq-ok _ _ e₁),
              (nonempty_length outputs).0 (fail_if-eq-ok _ _ e₂),
              or_err-eq-ok reply h₂,
            )),
        λ (some_utxo, some_output, made).
            rw ((nonempty_length utxos).1 some_utxo, (nonempty_length outputs).1 some_output, made),
      )
