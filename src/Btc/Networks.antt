-- ===== src/Btc/Networks.antt =====
-- The package parameters/parser of babylonlabs-io/networks: the global parameters read from a file.
use covenant_signer.Prelude.{ℕ, Option, List}
use covenant_signer.Prelude.Int.{ℤ}
use covenant_signer.Go.Text.{GoString, Bytes}
use covenant_signer.Go.Exec.{Call}
use covenant_signer.Btc.{Btc}

-- The fields that the program reads of `parser.ParsedVersionedGlobalParams`.
pub record VersionedGlobalParams (btc : Btc) : Type 0 where
  pub covenant_pks : List btc.PublicKey
  pub covenant_quorum : ℕ
  pub tag : Bytes
  pub unbonding_time : ℕ
  pub unbonding_fee : ℤ
  pub max_staking_amount : ℤ
  pub min_staking_amount : ℤ
  pub max_staking_time : ℕ
  pub min_staking_time : ℕ
  pub confirmation_depth : ℕ

pub record Networks (btc : Btc) (W : Type 0) : Type 1 where
  pub ParsedGlobalParams : Type 0
  pub new_parsed_global_params_from_file : GoString → Call W ParsedGlobalParams
  -- `GetVersionedGlobalParamsByHeight`, with nil for no version
  pub versioned_params_by_height : ParsedGlobalParams → ℕ → Option (VersionedGlobalParams btc)
