-- ===== src/SignerApp/Signer.antt =====
-- signerapp/signer.go
pub mod Checks
pub mod Approval
pub mod Requests
pub mod Flow
pub mod Validation
pub mod Signing
pub mod Panics
pub mod Errors
use covenant_signer.Prelude.{ℕ}
use covenant_signer.Go.Text.{Bytes}
use covenant_signer.Go.Outcome.{first, ok}
use covenant_signer.Go.Exec.{Exec, lift, ◌>>=◌, ◌>>◌}
use covenant_signer.Btc.{Btc, Staking}
use covenant_signer.Config.App.{ParsedSignerAppConfig}
use covenant_signer.SignerApp.Interfaces.{BabylonParamsRetriever, BtcChainInfo, ExternalBtcSigner}
use Checks.{check_request, check_inclusion_height, signing_request}

pub record SignerApp (btc : Btc) (W : Type 0) : Type 0 where
  pub s : ExternalBtcSigner btc W
  pub r : BtcChainInfo btc W
  pub p : BabylonParamsRetriever btc W
  pub cfg : ParsedSignerAppConfig
  pub net : btc.Network

module _ {btc : Btc} (staking : Staking btc) {W : Type 0} where
  -- `SignUnbondingTransaction`. What follows the three queries and precedes the wallet's call is
  -- `signing_request`.
  unfoldable pub sign_unbonding_transaction :
      SignerApp btc W → Bytes → btc.MsgTx → btc.Signature → btc.PublicKey → Exec W btc.Signature
  sign_unbonding_transaction app pk_script unbonding_tx staker_sig key = do
    lift (check_request staking pk_script unbonding_tx)
    input ← lift (first (btc.tx_in unbonding_tx))
    info ← app.r.tx_by_hash (btc.previous_out_point input).hash pk_script
    lift (check_inclusion_height app.cfg info)
    best_block ← app.r.best_block_height
    params ← app.p.params_by_height info.tx_inclusion_height
    request ←
        lift (signing_request staking app.net unbonding_tx staker_sig key info best_block params)
    result ← app.s.raw_signature request
    lift (ok result.signature)
