-- ===== src/SignerApp/Interfaces.antt =====
-- signerapp/expected_interfaces.go. A context is only handed on, so it is left out.
use covenant_signer.Prelude.{ℕ, List}
use covenant_signer.Prelude.Int.{ℤ}
use covenant_signer.Go.Text.{Bytes}
use covenant_signer.Go.Exec.{Exec}
use covenant_signer.Btc.{Btc, TxOut, TapLeaf}

-- CovenantQuorum is a `uint32`, the times and the depth are `uint16`, the amounts `int64`.
pub record BabylonParams (btc : Btc) : Type 0 where
  pub covenant_public_keys : List btc.PublicKey
  pub covenant_quorum : ℕ
  pub magic_bytes : Bytes
  pub unbonding_time : ℕ
  pub unbonding_fee : ℤ
  pub max_staking_amount : ℤ
  pub min_staking_amount : ℤ
  pub max_staking_time : ℕ
  pub min_staking_time : ℕ
  pub confirmation_depth : ℕ

-- TxInclusionHeight is a `uint32`.
pub record TxInfo (btc : Btc) : Type 0 where
  pub tx : btc.MsgTx
  pub tx_inclusion_height : ℕ

pub record SpendPathDescription (btc : Btc) : Type 0 where
  pub control_block : btc.ControlBlock
  pub script_leaf : TapLeaf

pub record SigningRequest (btc : Btc) : Type 0 where
  pub staking_output : TxOut
  pub unbonding_transaction : btc.MsgTx
  pub covenant_public_key : btc.PublicKey
  pub covenant_address : btc.Address
  pub spend_description : SpendPathDescription btc

pub record SigningResult (btc : Btc) : Type 0 where
  pub signature : btc.Signature

-- The interfaces, each call of which may read and change a world `W`.
pub record BabylonParamsRetriever (btc : Btc) (W : Type 0) : Type 0 where
  pub params_by_height : ℕ → Exec W (BabylonParams btc)

pub record BtcChainInfo (btc : Btc) (W : Type 0) : Type 0 where
  pub tx_by_hash : btc.Hash → Bytes → Exec W (TxInfo btc)
  pub best_block_height : Exec W ℕ

pub record ExternalBtcSigner (btc : Btc) (W : Type 0) : Type 0 where
  pub raw_signature : SigningRequest btc → Exec W (SigningResult btc)
