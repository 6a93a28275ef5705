-- ===== src/SignerApp/Calls.antt =====
-- signerapp/signer.go under concurrent calls. A call of `SignUnbondingTransaction` is cut where it
-- calls the node, the parameters and the wallet: others may change the world there.
pub mod Alone
pub mod Sound
pub mod Concurrent
use covenant_signer.Prelude.{ℕ, zero, suc, ◌≡◌, refl, ap, List, [], ◌∷◌, ◌++◌}
use covenant_signer.Go.Text.{GoString, Bytes, str}
use covenant_signer.Go.Outcome.{Outcome, ok, err, panicked, first}
use covenant_signer.Go.Exec.{Exec, lift, continue, ◌>>=◌, ◌>>◌}
use covenant_signer.Btc.{Btc, Staking}
use covenant_signer.SignerApp.Interfaces.{BabylonParams, TxInfo}
use covenant_signer.SignerApp.Signer.Checks.{check_request, check_inclusion_height, signing_request}
use covenant_signer.SignerApp.Signer.{SignerApp, sign_unbonding_transaction}

-- The arguments of a call
pub record Job (btc : Btc) : Type 0 where
  pub pk_script : Bytes
  pub unbonding_tx : btc.MsgTx
  pub staker_sig : btc.Signature
  pub key : btc.PublicKey

-- How far a call has come: what it was answered so far
pub data Call (btc : Btc) : Type 0 where
  begins : Job btc → Call btc
  has_info : Job btc → TxInfo btc → Call btc
  has_best : Job btc → TxInfo btc → ℕ → Call btc
  has_params : Job btc → TxInfo btc → ℕ → BabylonParams btc → Call btc

pub data Next (btc : Btc) : Type 0 where
  continues : Call btc → Next btc
  returns : btc.Signature → Next btc

module _ {btc : Btc} (staking : Staking btc) {W : Type 0} (app : SignerApp btc W) where
  -- A call goes on to the end of its next query, or of the wallet's call.
  unfoldable pub advance : Call btc → Exec W (Next btc)
  unfolding check_request first check_inclusion_height signing_request
  advance (begins j) = do
    lift (check_request staking j.pk_script j.unbonding_tx)
    input ← lift (first (btc.tx_in j.unbonding_tx))
    info ← app.r.tx_by_hash (btc.previous_out_point input).hash j.pk_script
    lift (check_inclusion_height app.cfg info)
    lift (ok (continues (has_info j info)))
  advance (has_info j info) = do
    best_block ← app.r.best_block_height
    lift (ok (continues (has_best j info best_block)))
  advance (has_best j info best_block) = do
    params ← app.p.params_by_height info.tx_inclusion_height
    lift (ok (continues (has_params j info best_block params)))
  advance (has_params j info best_block params) = do
    request ←
        lift
          (signing_request staking app.net j.unbonding_tx j.staker_sig j.key info best_block params)
    result ← app.s.raw_signature request
    lift (ok (returns result.signature))

  -- A call with nothing in between, in at most so many pieces
  unfoldable pub alone : ℕ → Next btc → Exec W btc.Signature
  unfolding advance
  alone n (returns s) = lift (ok s)
  alone zero (continues c) = lift (panicked (str "not at its end"))
  alone (suc n) (continues c) = do next ← advance c; alone n next
