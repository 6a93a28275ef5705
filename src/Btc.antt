-- ===== src/Btc.antt =====
-- The types and functions of other packages that the program uses: btcsuite/btcd and btcutil in
-- `Btc`, babylon/btcstaking in `Staking`. They are parameters: a theorem holds for every value of
-- these records, and names what it relies on. A struct of which the program reads each field is a
-- record, any other an abstract type with the fields that are read as functions.
pub mod Rpc
pub mod Networks
use covenant_signer.Prelude.{ℕ, Bool, List}
use covenant_signer.Prelude.Int.{ℤ}
use covenant_signer.Go.Text.{GoString, Bytes}
use covenant_signer.Go.Outcome.{Reply}

-- `wire.TxOut`
pub record TxOut : Type 0 where
  pub value : ℤ
  pub pk_script : Bytes

-- `wire.OutPoint`, over the type of hashes
pub record OutPointOf (Hash : Type 0) : Type 0 where
  pub hash : Hash
  pub index : ℕ

-- `txscript.TapLeaf`
pub record TapLeaf : Type 0 where
  pub leaf_version : ℕ
  pub script : Bytes

pub record Btc : Type 1 where
  -- `btcec.PublicKey`, `btcec.PrivateKey`, `schnorr.Signature`
  pub PublicKey : Type 0
  pub PrivateKey : Type 0
  pub Signature : Type 0
  -- `chainhash.Hash`, `btcutil.Address`, `chaincfg.Params`
  pub Hash : Type 0
  pub Address : Type 0
  pub Network : Type 0
  -- `wire.MsgTx`, `wire.TxIn`
  pub MsgTx : Type 0
  pub TxIn : Type 0
  -- what `txscript.ParsePkScript` returns, `txscript.ControlBlock`
  pub PkScript : Type 0
  pub ControlBlock : Type 0
  pub is_equal : PublicKey → PublicKey → Bool
  pub serialize_compressed : PublicKey → Bytes
  -- `btcec.ParsePubKey` reads 33 or 65 bytes, `schnorr.ParsePubKey` 32
  pub parse_pub_key : Bytes → Reply PublicKey
  pub parse_schnorr_pub_key : Bytes → Reply PublicKey
  pub serialize_signature : Signature → Bytes
  pub parse_signature : Bytes → Reply Signature
  pub hash_string : Hash → GoString
  pub tx_in : MsgTx → List TxIn
  pub tx_out : MsgTx → List TxOut
  pub version : MsgTx → ℤ
  pub lock_time : MsgTx → ℕ
  pub previous_out_point : TxIn → OutPointOf Hash
  -- `wire.NewTxIn(&outPoint, nil, nil)`
  pub new_tx_in : OutPointOf Hash → TxIn
  -- `MsgTx.Deserialize` on a reader of the bytes, and `MsgTx.Serialize` into an empty buffer
  pub deserialize_tx : Bytes → Reply MsgTx
  pub serialize_tx : MsgTx → Reply Bytes
  pub hash160 : Bytes → Bytes
  pub new_address_witness_pub_key_hash : Bytes → Network → Reply Address
  pub parse_pk_script : Bytes → Reply PkScript
  pub class : PkScript → ℕ
  pub witness_v1_taproot_ty : ℕ
  pub control_block_to_bytes : ControlBlock → Reply Bytes

-- The fields that the program reads of `btcstaking.ParsedV0StakingTx`, the two keys and the staking
-- time standing in its OpReturnData. The staking time is a `uint16`, the index an `int`.
pub record ParsedV0StakingTx (btc : Btc) : Type 0 where
  pub staking_output : TxOut
  pub staking_output_idx : ℤ
  pub staker_public_key : btc.PublicKey
  pub finality_provider_public_key : btc.PublicKey
  pub staking_time : ℕ

-- `btcstaking.SpendInfo`
pub record SpendInfo (btc : Btc) : Type 0 where
  pub control_block : btc.ControlBlock
  pub revealed_leaf : TapLeaf

pub record Staking (btc : Btc) : Type 1 where
  pub UnbondingInfo : Type 0
  pub StakingInfo : Type 0
  pub check_pre_signed_unbonding_tx_sanity : btc.MsgTx → Reply (Unit {0})
  pub is_simple_transfer : btc.MsgTx → Reply (Unit {0})
  -- transaction, tag, covenant keys, covenant quorum, network
  pub parse_v0_staking_tx :
      btc.MsgTx → Bytes → List btc.PublicKey → ℕ → btc.Network → Reply (ParsedV0StakingTx btc)
  -- staker, finality providers, covenant keys, quorum, unbonding time, value, network
  pub build_unbonding_info :
      btc.PublicKey
      → List btc.PublicKey
      → List btc.PublicKey
      → ℕ
      → ℕ
      → ℤ
      → btc.Network
      → Reply UnbondingInfo
  pub unbonding_output : UnbondingInfo → TxOut
  -- the same with the staking time and the staked value
  pub build_staking_info :
      btc.PublicKey
      → List btc.PublicKey
      → List btc.PublicKey
      → ℕ
      → ℕ
      → ℤ
      → btc.Network
      → Reply StakingInfo
  pub unbonding_path_spend_info : StakingInfo → Reply (SpendInfo btc)
  -- transaction, funding output, script, public key, serialized signature
  pub verify_transaction_sig_with_output :
      btc.MsgTx → TxOut → Bytes → btc.PublicKey → Bytes → Reply (Unit {0})
  -- transaction, funding output, private key, leaf
  pub sign_tx_with_one_script_spend_input_from_tap_leaf :
      btc.MsgTx → TxOut → btc.PrivateKey → TapLeaf → Reply btc.Signature
