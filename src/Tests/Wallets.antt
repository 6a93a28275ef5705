-- ===== src/Tests/Wallets.antt =====
-- Runs of the private key wallet and of the node's wallet on the small node.
use covenant_signer.Prelude.{ℕ, ◌≡◌, refl, [], ◌∷◌, true}
use covenant_signer.Prelude.Int.{pos}
use covenant_signer.Go.Outcome.{ok, answer}
use covenant_signer.BtcClient.Inputs.{
  make_input_source, fund, amount_less, results_to_utxos, build_tx_from_outputs,
}
use covenant_signer.BtcClient.Inputs.Rounds.{Halts, fund-Halts}
use covenant_signer.BtcClient.Node
use covenant_signer.BtcClient.Wallet.{create_and_sign_tx}
use covenant_signer.BtcClient.Wallet.Laws.{CreatedAndSigned, create_and_sign_tx-CreatedAndSigned}
use covenant_signer.Btc.Rpc.{Rpc, ListUnspentResult}
use covenant_signer.Go.Hex.{decode_string}
use covenant_signer.SignerApp.PrivKeySigner
use covenant_signer.SignerApp.PrivKeySigner.Laws.{SignedByKey, priv_key_signer-SignedByKey}
use covenant_signer.Tests.Chain.{covenant_2, toy_btc, toy_staking}
use covenant_signer.Tests.Nodes.{toy_rpc, toy_author, toy_sort_laws, utxos, paid, unspent}
use covenant_signer.Tests.Signing.{request}
use covenant_signer.Tests.Sorting.{insert, sort_reverse}

fund-Halts_example :
    Halts (pos 60) (make_input_source utxos) (fund (pos 60) (make_input_source utxos))
fund-Halts_example = fund-Halts (pos 60) (make_input_source utxos)

priv_key_run :
    PrivKeySigner.raw_signature toy_staking toy_rpc request 0
    ≡ (ok (record { signature = covenant_2 }), 0)
unfolding PrivKeySigner.raw_signature Node.dump_private_key
priv_key_run = refl

priv_key_signer-SignedByKey_example :
    SignedByKey toy_staking toy_rpc request 0 (record { signature = covenant_2 }) 0
priv_key_signer-SignedByKey_example =
    priv_key_signer-SignedByKey toy_staking toy_rpc request 0 0 (record { signature = covenant_2 })
      priv_key_run

abbrev larger : ListUnspentResult ℕ
larger = record (unspent true) { vout = 1; amount = 9 }

-- A node that lists the smaller of two outputs first
abbrev funded_rpc : Rpc toy_btc ℕ
funded_rpc = record toy_rpc { list_unspent = λ w. (answer (unspent true ∷ larger ∷ []), w) }

create_run : create_and_sign_tx funded_rpc toy_author paid (pos 1) 9 0 ≡ (
  ok (record {
    inputs = record { hash = 42; index = 1 } ∷ record { hash = 42; index = 0 } ∷ [];
    outputs = paid;
  }),
  0,
)
unfolding create_and_sign_tx results_to_utxos build_tx_from_outputs Node.sign_raw_transaction fund
    make_input_source amount_less decode_string insert sort_reverse
create_run = refl

create_and_sign_tx-CreatedAndSigned_example :
    CreatedAndSigned funded_rpc toy_author toy_sort_laws paid
      (pos 1)
      9
      0
      (record {
        inputs = record { hash = 42; index = 1 } ∷ record { hash = 42; index = 0 } ∷ [];
        outputs = paid;
      })
      0
create_and_sign_tx-CreatedAndSigned_example =
    create_and_sign_tx-CreatedAndSigned funded_rpc toy_author toy_sort_laws paid (pos 1) 9 0 0
      (record {
        inputs = record { hash = 42; index = 1 } ∷ record { hash = 42; index = 0 } ∷ [];
        outputs = paid;
      })
      create_run
