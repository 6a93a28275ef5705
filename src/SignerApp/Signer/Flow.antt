-- ===== src/SignerApp/Signer/Flow.antt =====
-- The order of the checks, the queries and the wallet's call in `SignUnbondingTransaction`.
use covenant_signer.Prelude.{ℕ, ◌≡◌, refl, ap, sym, subst}
use covenant_signer.Go.Text.{Bytes}
use covenant_signer.Go.Outcome.{Outcome, ok, err, panicked, first}
use covenant_signer.Go.Exec.{lift, continue, Fails, bind_rule}
use covenant_signer.Btc.{Btc, Staking}
use covenant_signer.SignerApp.Interfaces.{BabylonParams, TxInfo, SigningRequest, SigningResult}
use covenant_signer.SignerApp.Signer.Checks.{check_request, check_inclusion_height, signing_request}
use covenant_signer.SignerApp.Signer.{SignerApp, sign_unbonding_transaction}

module _ {btc : Btc} {W : Type 0} where
  -- The signature of a result
  abbrev pub signature_of : Outcome (SigningResult btc) × W → Outcome btc.Signature × W
  signature_of (ok result, w) = (ok result.signature, w)
  signature_of (err e, w) = (err e, w)
  signature_of (panicked t, w) = (panicked t, w)

module _ {btc : Btc} (staking : Staking btc) {W : Type 0} (app : SignerApp btc W)
    (pk_script : Bytes) (unbonding_tx : btc.MsgTx) (staker_sig : btc.Signature)
    (key : btc.PublicKey) (w : W) where
  -- The queries of a call, in their order: what they were asked, in which world, what they answered
  -- and which checks passed before them.
  pub record Located (w₁ : W) : Type 0 where
    pub checked : check_request staking pk_script unbonding_tx ≡ ok tt
    pub input : btc.TxIn
    pub spends : first (btc.tx_in unbonding_tx) ≡ ok input
    pub info : TxInfo btc
    pub has_info : app.r.tx_by_hash (btc.previous_out_point input).hash pk_script w ≡ (ok info, w₁)

  pub record Queried (w₃ : W) : Type 0 where
    pub w₁ : W
    pub located : Located w₁
    pub in_time : check_inclusion_height app.cfg located.info ≡ ok tt
    pub best_block : ℕ
    pub w₂ : W
    pub has_best : app.r.best_block_height w₁ ≡ (ok best_block, w₂)
    pub params : BabylonParams btc
    pub has_params : app.p.params_by_height located.info.tx_inclusion_height w₂ ≡ (ok params, w₃)

  -- Every way in which a call can end: at a check or a query that fails, or with what the wallet
  -- makes of a request.
  pub data Ends : Outcome btc.Signature → W → Type 0 where
    bad_request :
        {r : Outcome btc.Signature}
        → Fails (check_request staking pk_script unbonding_tx) r
        → Ends r w
    no_input :
        {r : Outcome btc.Signature}
        → check_request staking pk_script unbonding_tx ≡ ok tt
        → Fails (first (btc.tx_in unbonding_tx)) r
        → Ends r w
    no_tx :
        {r : Outcome btc.Signature} (input : btc.TxIn)
        → check_request staking pk_script unbonding_tx ≡ ok tt
        → first (btc.tx_in unbonding_tx) ≡ ok input
        → Fails (app.r.tx_by_hash (btc.previous_out_point input).hash pk_script w).0 r
        → Ends r (app.r.tx_by_hash (btc.previous_out_point input).hash pk_script w).1
    too_late :
        {r : Outcome btc.Signature} {w₁ : W} (l : Located w₁)
        → Fails (check_inclusion_height app.cfg l.info) r
        → Ends r w₁
    no_best :
        {r : Outcome btc.Signature} {w₁ : W} (l : Located w₁)
        → check_inclusion_height app.cfg l.info ≡ ok tt
        → Fails (app.r.best_block_height w₁).0 r
        → Ends r (app.r.best_block_height w₁).1
    no_params :
        {r : Outcome btc.Signature} {w₁ : W} (l : Located w₁) (best_block : ℕ)
        → check_inclusion_height app.cfg l.info ≡ ok tt
        → (app.r.best_block_height w₁).0 ≡ ok best_block
        → Fails
            (app.p.params_by_height l.info.tx_inclusion_height (app.r.best_block_height w₁).1).0
            r
        → Ends r
            (app.p.params_by_height l.info.tx_inclusion_height (app.r.best_block_height w₁).1).1
    not_approved :
        {r : Outcome btc.Signature} {w₃ : W} (q : Queried w₃)
        → Fails
            (signing_request staking app.net unbonding_tx staker_sig key q.located.info q.best_block
              q.params)
            r
        → Ends r w₃
    asked :
        {w₃ : W} (q : Queried w₃) (request : SigningRequest btc)
        → signing_request staking app.net unbonding_tx staker_sig key q.located.info q.best_block
            q.params
          ≡ ok request
        → Ends
            (signature_of (app.s.raw_signature request w₃)).0
            (signature_of (app.s.raw_signature request w₃)).1

  signature-continue :
      (r : Outcome (SigningResult btc)) (w' : W)
      → continue r (λ result. lift (ok result.signature)) w' ≡ signature_of {btc = btc} (r, w')
  signature-continue (ok a) w' = refl
  signature-continue (err a) w' = refl
  signature-continue (panicked a) w' = refl

  abbrev EndsAt : Outcome btc.Signature × W → Type 0
  EndsAt (r, w') = Ends r w'

  pub sign-Ends :
      let (r, w') =
        sign_unbonding_transaction staking app pk_script unbonding_tx staker_sig key w in
      Ends r w'
  unfolding sign_unbonding_transaction
  sign-Ends =
      bind_rule EndsAt (lift (check_request staking pk_script unbonding_tx)) _ w
        (λ r f. bad_request f)
        λ _ checked.
          bind_rule EndsAt (lift (first (btc.tx_in unbonding_tx))) _ w (λ r f. no_input checked f)
            λ input spends.
              let hash = (btc.previous_out_point input).hash in
              let w₁ = (app.r.tx_by_hash hash pk_script w).1 in
              bind_rule EndsAt (app.r.tx_by_hash hash pk_script) _ w
                (λ r f. no_tx input checked spends f)
                λ info has_info.
                  let l : Located w₁ = record {
                    checked = checked;
                    input = input;
                    spends = spends;
                    info = info;
                    has_info = ap (λ x. (x, w₁)) has_info;
                  } in
                  bind_rule EndsAt (lift (check_inclusion_height app.cfg info)) _ w₁
                    (λ r f. too_late l f)
                    λ _ in_time.
                      let w₂ = (app.r.best_block_height w₁).1 in
                      bind_rule EndsAt app.r.best_block_height _ w₁ (λ r f. no_best l in_time f)
                        λ best has_best.
                          let w₃ = (app.p.params_by_height info.tx_inclusion_height w₂).1 in
                          bind_rule EndsAt (app.p.params_by_height info.tx_inclusion_height) _ w₂
                            (λ r f. no_params l best in_time has_best f)
                            λ params has_params.
                              let q : Queried w₃ = record {
                                w₁ = w₁;
                                located = l;
                                in_time = in_time;
                                best_block = best;
                                w₂ = w₂;
                                has_best = ap (λ x. (x, w₂)) has_best;
                                params = params;
                                has_params = ap (λ x. (x, w₃)) has_params;
                              } in
                              bind_rule EndsAt
                                (lift (
                                  signing_request staking app.net unbonding_tx staker_sig key info
                                    best params))
                                _ w₃ (λ r f. not_approved q f)
                                λ request approved.
                                  subst EndsAt
                                    (sym (
                                      signature-continue (app.s.raw_signature request w₃).0
                                        (app.s.raw_signature request w₃).1))
                                    (asked q request approved)

  -- With the queries answered and the request approved, a call returns what the wallet makes of it.
  pub sign_of_Queried :
      {w₃ : W} (q : Queried w₃) (request : SigningRequest btc)
      → signing_request staking app.net unbonding_tx staker_sig key q.located.info q.best_block
          q.params
        ≡ ok request
      → sign_unbonding_transaction staking app pk_script unbonding_tx staker_sig key w
        ≡ signature_of (app.s.raw_signature request w₃)
  unfolding sign_unbonding_transaction
  sign_of_Queried {w₃} q request approved =
      rw
        (
          q.located.checked, q.located.spends, q.located.has_info, q.in_time, q.has_best,
          q.has_params, approved,
        )
        (signature-continue (app.s.raw_signature request w₃).0 (app.s.raw_signature request w₃).1)
