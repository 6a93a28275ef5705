-- ===== src/Btc/Rpc.antt =====
-- The bitcoind node: btcsuite/btcd/rpcclient, with what btcclient/client.go takes of the packages
-- chainntnfs (lnd), btcjson, psbt and txauthor. All are parameters, over a world `W` that a node's
-- calls read and change.
use covenant_signer.Prelude.{ℕ, Bool, Option, List}
use covenant_signer.Prelude.Int.{ℤ}
use covenant_signer.Go.Text.{GoString, Bytes}
use covenant_signer.Go.Outcome.{Reply}
use covenant_signer.Go.Exec.{Call}
use covenant_signer.Btc.{Btc, TxOut, OutPointOf}

-- `chainntnfs.TxConfStatus`
pub data TxConfStatus : Type 0 where
  tx_not_found_index tx_found_mempool tx_found_index : TxConfStatus
  tx_not_found_manually tx_found_manually : TxConfStatus
  other_status : ℕ → TxConfStatus

-- The fields that the program reads of `chainntnfs.TxConfirmation`; the height is a `uint32`.
pub record TxConfirmation (btc : Btc) : Type 0 where
  pub tx : btc.MsgTx
  pub block_height : ℕ

-- The fields that the program reads of `btcjson.ListUnspentResult`, over the type of `float64`.
pub record ListUnspentResult (Float : Type 0) : Type 0 where
  pub tx_id : GoString
  pub vout : ℕ
  pub address : GoString
  pub script_pub_key : GoString
  pub redeem_script : GoString
  pub amount : Float
  pub spendable : Bool

-- `psbt.Bip32Derivation` with only a key, `psbt.TaprootTapLeafScript`, and the signature of a
-- `psbt.TaprootScriptSpendSig`
pub record Bip32Derivation : Type 0 where
  pub pub_key : Bytes

pub record TaprootTapLeafScript : Type 0 where
  pub control_block : Bytes
  pub script : Bytes
  pub leaf_version : ℕ

pub record TaprootScriptSpendSig : Type 0 where
  pub signature : Bytes

-- The fields of `psbt.PInput` that the program reads or sets; `others` stands for those that it
-- leaves alone.
pub record PInput (Others : Type 0) : Type 0 where
  pub sighash_type : ℕ
  pub witness_utxo : Option TxOut
  pub bip32_derivation : List Bip32Derivation
  pub taproot_leaf_script : List TaprootTapLeafScript
  pub taproot_script_spend_sig : List TaprootScriptSpendSig
  pub others : Others

-- `psbt.Packet`, in the same way
pub record Packet (Others : Type 0) (OtherParts : Type 0) : Type 0 where
  pub inputs : List (PInput Others)
  pub other_parts : OtherParts

pub record Psbt (btc : Btc) : Type 1 where
  pub Others : Type 0
  pub OtherParts : Type 0
  -- outpoints, outputs, version, lock time, sequences
  pub new_packet :
      List (OutPointOf btc.Hash) → List TxOut → ℤ → ℕ → List ℕ → Reply (Packet Others OtherParts)
  pub b64_encode : Packet Others OtherParts → Reply GoString
  -- `base64.StdEncoding.DecodeString`, `psbt.NewFromRawBytes` on a reader of the bytes
  pub base64_decode : GoString → Reply Bytes
  pub new_from_raw_bytes : Bytes → Reply (Packet Others OtherParts)
  -- `txscript.SigHashDefault`, `wire.MaxTxInSequenceNum`
  pub sig_hash_default : ℕ
  pub max_tx_in_sequence_num : ℕ

pub record Rpc (btc : Btc) (W : Type 0) : Type 1 where
  pub Float : Type 0
  pub ConfRequest : Type 0
  pub Wif : Type 0
  pub priv_key : Wif → btc.PrivateKey
  pub send_raw_transaction : btc.MsgTx → Bool → Call W btc.Hash
  pub list_unspent : Call W (List (ListUnspentResult Float))
  pub wallet_passphrase : GoString → ℤ → Call W (Unit {0})
  pub dump_priv_key : btc.Address → Call W Wif
  pub sign_raw_transaction_with_wallet : btc.MsgTx → Call W (btc.MsgTx × Bool)
  -- packet, sign, sighash type, bip32 derivations: the packet of the result
  pub wallet_process_psbt : GoString → Option Bool → GoString → Option Bool → Call W GoString
  pub get_block_count : Call W ℤ
  pub new_conf_request : btc.Hash → Bytes → Reply ConfRequest
  -- `chainntnfs.ConfDetailsFromTxIndex`, whose confirmation may be nil
  pub conf_details_from_tx_index :
      ConfRequest → GoString → Call W (Option (TxConfirmation btc) × TxConfStatus)
  pub new_amount : Float → Reply ℤ
  pub new_hash_from_str : GoString → Reply btc.Hash
