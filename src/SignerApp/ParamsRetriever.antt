-- ===== src/SignerApp/ParamsRetriever.antt =====
-- signerapp/babylon_params_retriever.go
use covenant_signer.Prelude.{ℕ, ◌++◌, Option, none, some}
use covenant_signer.Go.Text.{GoString, str, decimal}
use covenant_signer.Go.Outcome.{Outcome, ok, err, new}
use covenant_signer.Go.Exec.{Exec, lift, call}
use covenant_signer.Btc.{Btc}
use covenant_signer.Btc.Networks.{Networks, VersionedGlobalParams}
use covenant_signer.SignerApp.Interfaces.{BabylonParams, BabylonParamsRetriever}

module _ {btc : Btc} where
  -- The copy of the fields
  unfoldable pub to_babylon_params : VersionedGlobalParams btc → BabylonParams btc
  to_babylon_params v = record {
    covenant_public_keys = v.covenant_pks;
    covenant_quorum = v.covenant_quorum;
    magic_bytes = v.tag;
    unbonding_time = v.unbonding_time;
    unbonding_fee = v.unbonding_fee;
    max_staking_amount = v.max_staking_amount;
    min_staking_amount = v.min_staking_amount;
    max_staking_time = v.max_staking_time;
    min_staking_time = v.min_staking_time;
    confirmation_depth = v.confirmation_depth;
  }

  unfoldable pub params_of : ℕ → Option (VersionedGlobalParams btc) → Outcome (BabylonParams btc)
  unfolding to_babylon_params
  params_of height none = err (new (str "no global params for height " ++ decimal height))
  params_of height (some v) = ok (to_babylon_params v)

module _ {btc : Btc} {W : Type 0} (networks : Networks btc W) where
  -- A `VersionedParamsRetriever` is the parameters that it was made with.
  unfoldable pub new_versioned_params_retriever : GoString → Exec W networks.ParsedGlobalParams
  new_versioned_params_retriever path = call (networks.new_parsed_global_params_from_file path)

  unfoldable pub params_by_height : networks.ParsedGlobalParams → ℕ → Exec W (BabylonParams btc)
  unfolding params_of
  params_by_height v height = lift (params_of height (networks.versioned_params_by_height v height))

  abbrev pub versioned_params_retriever : networks.ParsedGlobalParams → BabylonParamsRetriever btc W
  versioned_params_retriever v = record { params_by_height = params_by_height v }
