-- ===== src/BtcClient/Inputs.antt =====
-- btcclient/client.go: the wallet's unspent outputs, and the choice of a transaction's inputs.
pub mod Source
pub mod Results
pub mod Rounds
use covenant_signer.Prelude.{
  ℕ, Bool, true, false, not, ◌&&◌, List, [], ◌∷◌, ◌++◌, if◌then◌else◌, ◌==◌, length,
}
use covenant_signer.Prelude.Int.{ℤ, pos, ltb_ℤ, add_int64}
use covenant_signer.Go.Text.{GoString, Bytes, str}
use covenant_signer.Go.Hex.{decode_string}
use covenant_signer.Go.Outcome.{Outcome, ok, err, new, or_err, Reply, fail_if, ◌>>=◌, ◌>>◌}
use covenant_signer.Btc.{Btc, TxOut, OutPointOf}
use covenant_signer.Btc.Rpc.{Rpc, ListUnspentResult}

-- An amount is an `int64`.
pub record Utxo (btc : Btc) : Type 0 where
  pub amount : ℤ
  pub out_point : OutPointOf btc.Hash
  pub pk_script : Bytes
  pub redeem_script : Bytes
  pub address : GoString

module _ {btc : Btc} {W : Type 0} (rpc : Rpc btc W) where
  -- One round of the loop, for a result that is not skipped
  unfoldable pub to_utxo : ListUnspentResult rpc.Float → Outcome (Utxo btc)
  to_utxo result = do
    amount ← or_err (rpc.new_amount result.amount)
    hash ← or_err (rpc.new_hash_from_str result.tx_id)
    script ← decode_string result.script_pub_key
    redeem_script ← decode_string result.redeem_script
    ok (record {
      amount = amount;
      out_point = record { hash = hash; index = result.vout };
      pk_script = script;
      redeem_script = redeem_script;
      address = result.address;
    })

  -- `resultsToUtxos`
  unfoldable pub results_to_utxos :
      List (ListUnspentResult rpc.Float) → Bool → Outcome (List (Utxo btc))
  unfolding to_utxo
  results_to_utxos [] only_spendable = ok []
  results_to_utxos (result ∷ results) only_spendable =
      let rest = results_to_utxos results only_spendable in
      if only_spendable && not result.spendable
      then rest
      else (do utxo ← to_utxo result; utxos ← rest; ok (utxo ∷ utxos))

-- The variables that the closure of `makeInputSource` keeps between its calls.
pub record InputSource (btc : Btc) : Type 0 where
  pub utxos : List (Utxo btc)
  pub current_total : ℤ
  pub current_inputs : List btc.TxIn
  pub current_scripts : List Bytes
  pub current_input_values : List ℤ

module _ {btc : Btc} where
  -- `makeInputSource`
  unfoldable pub make_input_source : List (Utxo btc) → InputSource btc
  make_input_source utxos = record {
    utxos = utxos;
    current_total = pos 0;
    current_inputs = [];
    current_scripts = [];
    current_input_values = [];
  }

  -- One round of the closure's loop: the next output is moved to the inputs.
  unfoldable pub add_input : Utxo btc → InputSource btc → InputSource btc
  unfolding add_int64
  add_input next_credit s = record s {
    current_total = add_int64 s.current_total next_credit.amount;
    current_inputs = s.current_inputs ++ btc.new_tx_in next_credit.out_point ∷ [];
    current_scripts = s.current_scripts ++ next_credit.pk_script ∷ [];
    current_input_values = s.current_input_values ++ next_credit.amount ∷ [];
  }

  -- The loop, over the outputs that are left.
  unfoldable pub take_inputs : ℤ → List (Utxo btc) → InputSource btc → InputSource btc
  unfolding add_input
  take_inputs target [] s = record s { utxos = [] }
  take_inputs target (next_credit ∷ utxos) s =
      let more = take_inputs target utxos (add_input next_credit s) in
      if ltb_ℤ s.current_total target then more else record s { utxos = next_credit ∷ utxos }

  -- A call of the closure: the state after it holds the four results.
  unfoldable pub fund : ℤ → InputSource btc → InputSource btc
  unfolding take_inputs
  fund target s = take_inputs target s.utxos s

  -- `sort.Sort(sort.Reverse(byAmount(utxos)))` compares by this order.
  unfoldable pub amount_less : Utxo btc → Utxo btc → Bool
  amount_less a b = ltb_ℤ a.amount b.amount

-- `txauthor.NewUnsignedTransaction`, which calls the input source as it needs: the outputs, the fee
-- rate, the source with its state, the change script and its length. `sort_reverse` is
-- `sort.Sort(sort.Reverse(…))`, given the method `Less`.
pub record TxAuthor (btc : Btc) : Type 1 where
  pub new_unsigned_transaction :
      List TxOut
      → ℤ
      → (ℤ → InputSource btc → InputSource btc)
      → InputSource btc
      → Bytes
      → ℕ
      → Reply btc.MsgTx
  pub pay_to_addr_script : btc.Address → Reply Bytes
  pub sort_reverse : (Utxo btc → Utxo btc → Bool) → List (Utxo btc) → List (Utxo btc)

module _ {btc : Btc} (author : TxAuthor btc) where
  unfoldable pub build_tx_from_outputs :
      List (Utxo btc) → List TxOut → ℤ → Bytes → Outcome btc.MsgTx
  unfolding make_input_source fund
  build_tx_from_outputs utxos outputs fee_rate_per_kb change_script = do
    fail_if (length utxos == 0)
        (new (str "there must be at least 1 usable UTXO to build transaction"))
    fail_if (length outputs == 0) (new (str "there must be at least 1 output in transaction"))
    or_err (
        author.new_unsigned_transaction outputs fee_rate_per_kb fund (make_input_source utxos)
          change_script (length change_script))
