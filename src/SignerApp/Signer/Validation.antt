-- ===== src/SignerApp/Signer/Validation.antt =====
-- The validation of docs/validation.md as a whole: the conditions on the request and on what the
-- queries answer.
use covenant_signer.Prelude.{ℕ, ◌≤◌, ◌≡◌, ◌↔◌, some, arith, head?, not, ◌==◌}
use covenant_signer.Prelude.Int.{IsUint32}
use covenant_signer.Go.Text.{Bytes}
use covenant_signer.Go.Outcome.{
  ok, answer, or_fail, first-eq-ok, first_of_head, bind-eq-ok, or_fail-eq-ok, fail_if-eq-ok,
}
use covenant_signer.Btc.{Btc, Staking}
use covenant_signer.Config.App.{ParsedSignerAppConfig}
use covenant_signer.SignerApp.Interfaces.{BabylonParams, TxInfo, SigningRequest}
use covenant_signer.SignerApp.Signer.{SignerApp, sign_unbonding_transaction}
use covenant_signer.SignerApp.Signer.Checks.{
  check_request, check_inclusion_height, signing_request, wrap_invalid_signing_request_error,
}
use covenant_signer.SignerApp.Signer.Approval.{InRange, StakingLaws, IsApproved}
use covenant_signer.SignerApp.Signer.Requests.{signing_request_iff}
use covenant_signer.SignerApp.Signer.Flow.{signature_of, Queried, sign_of_Queried}

-- The answers have the ranges of their types, and the parameters are in range.
pub record Ranges {btc : Btc} {W : Type 0} (app : SignerApp btc W) : Type 0 where
  pub height :
      (hash : btc.Hash) (script : Bytes) (w w' : W) (info : TxInfo btc)
      → app.r.tx_by_hash hash script w ≡ (ok info, w')
      → IsUint32 info.tx_inclusion_height
  pub best_block :
      (w w' : W) (best_block : ℕ)
      → app.r.best_block_height w ≡ (ok best_block, w')
      → IsUint32 best_block
  pub params :
      (height : ℕ) (w w' : W) (params : BabylonParams btc)
      → app.p.params_by_height height w ≡ (ok params, w')
      → InRange params

module _ {btc : Btc} (staking : Staking btc) where
  -- The shape of the transaction and the class of the script
  pub record IsWellFormed (pk_script : Bytes) (unbonding_tx : btc.MsgTx) : Type 0 where
    pub sane : staking.check_pre_signed_unbonding_tx_sanity unbonding_tx ≡ answer tt
    pub script : btc.PkScript
    pub parses : btc.parse_pk_script pk_script ≡ answer script
    pub taproot : btc.class script ≡ btc.witness_v1_taproot_ty

  pub check_request-IsWellFormed :
      (pk_script : Bytes) (tx : btc.MsgTx)
      → check_request staking pk_script tx ≡ ok tt
      → IsWellFormed pk_script tx
  unfolding check_request
  check_request-IsWellFormed pk_script tx h =
      let (_, sane, h₁) =
        bind-eq-ok
          (or_fail wrap_invalid_signing_request_error
            (staking.check_pre_signed_unbonding_tx_sanity tx))
          _ h in
      let (script, parses, h₂) =
        bind-eq-ok (or_fail wrap_invalid_signing_request_error (btc.parse_pk_script pk_script)) _
          h₁ in
      let same = fail_if-eq-ok (not (btc.class script == btc.witness_v1_taproot_ty)) _ h₂ in
      record {
        sane = or_fail-eq-ok wrap_invalid_signing_request_error _ sane;
        script = script;
        parses = or_fail-eq-ok wrap_invalid_signing_request_error _ parses;
        taproot = ground arith;
      }

  IsWellFormed-check_request :
      (pk_script : Bytes) (tx : btc.MsgTx)
      → IsWellFormed pk_script tx
      → check_request staking pk_script tx ≡ ok tt
  unfolding check_request
  IsWellFormed-check_request pk_script tx f = rw (f.sane, f.parses, f.taproot) (ground arith)

pub check_inclusion_height_iff :
    {btc : Btc} (cfg : ParsedSignerAppConfig) (info : TxInfo btc)
    → (check_inclusion_height cfg info ≡ ok tt)
      ↔ (info.tx_inclusion_height ≤ cfg.max_staking_transaction_height)
unfolding check_inclusion_height
check_inclusion_height_iff cfg info = ground arith

module _ {btc : Btc} (staking : Staking btc) {W : Type 0} (app : SignerApp btc W)
    (pk_script : Bytes) (unbonding_tx : btc.MsgTx) (staker_sig : btc.Signature)
    (key : btc.PublicKey) (w : W) where
  -- The request passes validation in the world `w`: what the three queries answer, one after the
  -- other, and the conditions on the answers. They leave the world `w₃`, and `request` is what the
  -- wallet is to be asked.
  pub record Validated (request : SigningRequest btc) (w₃ : W) : Type 0 where
    pub well_formed : IsWellFormed staking pk_script unbonding_tx
    pub input : btc.TxIn
    pub spends : head? (btc.tx_in unbonding_tx) ≡ some input
    pub info : TxInfo btc
    pub w₁ : W
    pub has_info : app.r.tx_by_hash (btc.previous_out_point input).hash pk_script w ≡ (ok info, w₁)
    pub in_time : info.tx_inclusion_height ≤ app.cfg.max_staking_transaction_height
    pub best_block : ℕ
    pub w₂ : W
    pub has_best : app.r.best_block_height w₁ ≡ (ok best_block, w₂)
    pub params : BabylonParams btc
    pub has_params : app.p.params_by_height info.tx_inclusion_height w₂ ≡ (ok params, w₃)
    pub approved :
        IsApproved staking app.net unbonding_tx staker_sig key info best_block params request

  module _ (laws : StakingLaws staking) (ranges : Ranges app) where
    pub Queried-Validated :
        {w₃ : W} (q : Queried staking app pk_script unbonding_tx staker_sig key w w₃)
        (request : SigningRequest btc)
        → signing_request staking app.net unbonding_tx staker_sig key q.located.info q.best_block
            q.params
          ≡ ok request
        → Validated request w₃
    Queried-Validated q request h =
        let l = q.located in
        record {
          well_formed = check_request-IsWellFormed staking pk_script unbonding_tx l.checked;
          input = l.input;
          spends = first-eq-ok (btc.tx_in unbonding_tx) l.spends;
          info = l.info;
          w₁ = q.w₁;
          has_info = l.has_info;
          in_time = (check_inclusion_height_iff app.cfg l.info).0 q.in_time;
          best_block = q.best_block;
          w₂ = q.w₂;
          has_best = q.has_best;
          params = q.params;
          has_params = q.has_params;
          approved =
              (signing_request_iff staking laws app.net unbonding_tx staker_sig key l.info
                  q.best_block q.params (ranges.best_block _ _ _ q.has_best)
                  (ranges.height _ _ _ _ _ l.has_info) (ranges.params _ _ _ _ q.has_params)
                  request).0
                h;
        }

    pub Validated-sign :
        (request : SigningRequest btc) (w₃ : W)
        → Validated request w₃
        → sign_unbonding_transaction staking app pk_script unbonding_tx staker_sig key w
          ≡ signature_of (app.s.raw_signature request w₃)
    Validated-sign request w₃ v =
        sign_of_Queried staking app pk_script unbonding_tx staker_sig key w
          (record {
            w₁ = v.w₁;
            located = record {
              checked = IsWellFormed-check_request staking pk_script unbonding_tx v.well_formed;
              input = v.input;
              spends = first_of_head (btc.tx_in unbonding_tx) v.spends;
              info = v.info;
              has_info = v.has_info;
            };
            in_time = (check_inclusion_height_iff app.cfg v.info).1 v.in_time;
            best_block = v.best_block;
            w₂ = v.w₂;
            has_best = v.has_best;
            params = v.params;
            has_params = v.has_params;
          })
          request
          ((signing_request_iff staking laws app.net unbonding_tx staker_sig key v.info v.best_block
              v.params (ranges.best_block _ _ _ v.has_best) (ranges.height _ _ _ _ _ v.has_info)
              (ranges.params _ _ _ _ v.has_params) request).1
            v.approved)
