-- ===== src/Tests/Nodes.antt =====
-- Runs of the wallets, of the chain's queries, of the input source and of the settings.
use covenant_signer.Prelude.{ℕ, ◌≡◌, refl, ap, sym, true, Bool, none, some, List, [], ◌∷◌, arith}
use covenant_signer.Prelude.Int.{pos, IsInt64, ◌+ℤ◌}
use covenant_signer.Go.Outcome.{ok, answer}
use covenant_signer.Btc.{TxOut, OutPointOf}
use covenant_signer.Btc.Rpc.{Rpc, Psbt, Packet, PInput, ListUnspentResult, tx_found_index}
use covenant_signer.BtcClient.Node
use covenant_signer.BtcClient.Inputs.{Utxo, make_input_source, fund, TxAuthor}
use covenant_signer.BtcClient.Inputs.Source.{sum_amounts, Takes, fund-Takes}
use covenant_signer.BtcClient.Inputs.Results.{spendable}
use covenant_signer.Config.Metrics.{ParsedMetricsConfig}
use covenant_signer.SignerApp.Interfaces.{SigningRequest}
use covenant_signer.SignerApp.ChainInfo.{tx_by_hash}
use covenant_signer.SignerApp.ChainInfo.Laws.{Confirmed, tx_by_hash-Confirmed}
use covenant_signer.SignerApp.PsbtSigner
use covenant_signer.SignerApp.PsbtSigner.Laws.{PsbtLaws, Delegated, psbt_signer-Delegated}
use covenant_signer.Tests.Chain.{ToyKey, covenant_2, toy_btc, toy_staking}
use covenant_signer.Tests.Sorting.{sort_reverse, sort_reverse-Perm, sort_reverse-IsReverseSorted}
use covenant_signer.BtcClient.Wallet.Laws.{SortLaws}
use covenant_signer.Tests.Signing.{request, staking_info, unbonding_tx}

-- A PSBT packet has its inputs' number as its only other part; the node adds its key's signature.
abbrev blank : PInput (Unit {0})
blank = record {
  sighash_type = 0;
  witness_utxo = none;
  bip32_derivation = [];
  taproot_leaf_script = [];
  taproot_script_spend_sig = [];
  others = tt;
}

abbrev parts : List (OutPointOf ℕ) → List (PInput (Unit {0}))
parts [] = []
parts (p ∷ ps) = blank ∷ parts ps

abbrev pub toy_psbt : Psbt toy_btc
toy_psbt = record {
  Others = Unit {0};
  OtherParts = Unit {0};
  new_packet = λ points outputs version lock_time sequences.
      answer (record { inputs = parts points; other_parts = tt });
  b64_encode = λ packet. answer [];
  base64_decode = λ text. answer text;
  new_from_raw_bytes = λ bytes. answer (record {
    inputs = record blank { taproot_script_spend_sig = record { signature = bytes } ∷ [] } ∷ [];
    other_parts = tt;
  });
  sig_hash_default = 0;
  max_tx_in_sequence_num = 4294967295;
}

answer_lem : {A : Type 0} {a b : A} → answer a ≡ answer b → a ≡ b
answer_lem h = cc

toy_psbt_laws : PsbtLaws toy_psbt
toy_psbt_laws = record {
  one_part = λ p outputs version lock_time sequence packet h.
      (blank, ap (λ (k : Packet (Unit {0}) (Unit {0})). k.inputs) (sym (answer_lem h)));
}

abbrev pub toy_rpc : Rpc toy_btc ℕ
toy_rpc = record {
  Float = ℕ;
  ConfRequest = ℕ;
  Wif = ToyKey;
  priv_key = λ wif. wif;
  send_raw_transaction = λ tx allow w. (answer 0, w);
  list_unspent = λ w. (answer [], w);
  wallet_passphrase = λ passphrase time w. (answer tt, w);
  dump_priv_key = λ address w. (answer covenant_2, w);
  sign_raw_transaction_with_wallet = λ tx w. (answer (tx, true), w);
  wallet_process_psbt = λ packet sign sighash derivations w. (answer (2 ∷ []), w);
  get_block_count = λ w. (answer (pos 105), w);
  new_conf_request = λ hash script. answer hash;
  conf_details_from_tx_index = λ hash text w.
      (answer (some (record { tx = staking_info.tx; block_height = 100 }), tx_found_index), w);
  new_amount = λ amount. answer (pos amount);
  new_hash_from_str = λ text. answer 42;
}

psbt_run :
    PsbtSigner.raw_signature toy_psbt toy_staking toy_rpc request 0
    ≡ (ok (record { signature = covenant_2 }), 0)
unfolding PsbtSigner.raw_signature PsbtSigner.unsigned_packet Node.sign_psbt
    PsbtSigner.packet_signature
psbt_run = refl

psbt_signer-Delegated_example :
    Delegated toy_psbt toy_psbt_laws toy_staking toy_rpc request 0
      (record { signature = covenant_2 })
      0
psbt_signer-Delegated_example =
    psbt_signer-Delegated toy_psbt toy_psbt_laws toy_staking toy_rpc request 0 0
      (record { signature = covenant_2 }) psbt_run

-- A transaction with no input is not a simple transfer.
abbrev inputless : SigningRequest toy_btc
inputless = record request { unbonding_transaction = record unbonding_tx { inputs = [] } }

tx_run : tx_by_hash toy_rpc 42 (5 ∷ []) 0 ≡ (ok staking_info, 0)
unfolding tx_by_hash Node.tx_details
tx_run = refl

tx_by_hash-Confirmed_example : Confirmed toy_rpc 42 (5 ∷ []) 0 staking_info 0
tx_by_hash-Confirmed_example = tx_by_hash-Confirmed toy_rpc 42 (5 ∷ []) 0 0 staking_info tx_run

abbrev utxo : ℕ → Utxo toy_btc
utxo n = record {
  amount = pos n;
  out_point = record { hash = n; index = 0 };
  pk_script = n ∷ [];
  redeem_script = [];
  address = [];
}

abbrev pub utxos : List (Utxo toy_btc)
utxos = utxo 50 ∷ utxo 30 ∷ utxo 20 ∷ []

utxos_small : IsInt64 (sum_amounts utxos)
unfolding ◌+ℤ◌
utxos_small = (omega arith, omega arith)

fund-Takes_example :
    Takes (pos 60) utxos (make_input_source utxos) (fund (pos 60) (make_input_source utxos))
fund-Takes_example =
    fund-Takes (pos 60) utxos (omega arith, (omega arith, (omega arith, tt))) utxos_small

abbrev pub unspent : Bool → ListUnspentResult ℕ
unspent spendable = record {
  tx_id = [];
  vout = 0;
  address = [];
  script_pub_key = b'5' ∷ b'1' ∷ [];
  redeem_script = [];
  amount = 7;
  spendable = spendable;
}

abbrev pub toy_author : TxAuthor toy_btc
toy_author = record {
  new_unsigned_transaction = λ outputs fee source s change size.
      answer (record { inputs = (source (pos 60) s).current_inputs; outputs = outputs });
  pay_to_addr_script = λ address. answer (address ∷ []);
  sort_reverse = λ less us. sort_reverse less us;
}

pub toy_sort_laws : SortLaws toy_author
toy_sort_laws = record {
  permutes = λ less us laws. sort_reverse-Perm less us;
  sorts = λ less us laws. sort_reverse-IsReverseSorted less laws us;
}

abbrev pub paid : List TxOut
paid = record { value = pos 60; pk_script = 1 ∷ [] } ∷ []

abbrev settings : ParsedMetricsConfig
settings = record { host = []; port = pos 2112 }
