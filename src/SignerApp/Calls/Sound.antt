-- ===== src/SignerApp/Calls/Sound.antt =====
-- What a call has made sure of when it has come so far, and what one of its pieces does.
use covenant_signer.Prelude.{ℕ, ◌≡◌, ◌≤◌, refl, ap, subst, inl, inr, List, [], ◌∷◌, some, head?}
use covenant_signer.Go.Outcome.{Outcome, ok, first, first-eq-ok}
use covenant_signer.Go.Exec.{lift, Fails, Fails-ne-ok, bind_rule}
use covenant_signer.Btc.{Btc, Staking}
use covenant_signer.SignerApp.Asked.{AskedLaws, Asks, Asks-none}
use covenant_signer.SignerApp.Interfaces.{BabylonParams, TxInfo, SigningRequest}
use covenant_signer.SignerApp.Signer.Approval.{StakingLaws, IsApproved}
use covenant_signer.SignerApp.Signer.Checks.{check_request, check_inclusion_height, signing_request}
use covenant_signer.SignerApp.Signer.Requests.{signing_request_iff}
use covenant_signer.SignerApp.Signer.Validation.{
  Ranges, IsWellFormed, check_request-IsWellFormed, check_inclusion_height_iff,
}
use covenant_signer.SignerApp.Signer.{SignerApp}
use covenant_signer.SignerApp.Calls.{
  Job, Call, begins, has_info, has_best, has_params, Next, continues, advance,
}

module _ {btc : Btc} (staking : Staking btc) {W : Type 0} (app : SignerApp btc W) where
  -- The node gave this information on the staking transaction, in some world.
  pub record WasLocated (j : Job btc) (info : TxInfo btc) : Type 0 where
    pub well_formed : IsWellFormed staking j.pk_script j.unbonding_tx
    pub input : btc.TxIn
    pub spends : head? (btc.tx_in j.unbonding_tx) ≡ some input
    pub w : W
    pub w₁ : W
    pub has_info :
        app.r.tx_by_hash (btc.previous_out_point input).hash j.pk_script w ≡ (ok info, w₁)
    pub in_time : info.tx_inclusion_height ≤ app.cfg.max_staking_transaction_height

  pub record WasBest (best_block : ℕ) : Type 0 where
    pub w : W
    pub w₁ : W
    pub has_best : app.r.best_block_height w ≡ (ok best_block, w₁)

  pub record WasInForce (height : ℕ) (params : BabylonParams btc) : Type 0 where
    pub w : W
    pub w₁ : W
    pub has_params : app.p.params_by_height height w ≡ (ok params, w₁)

  abbrev pub IsSound : Call btc → Type 0
  IsSound (begins j) = Unit {0}
  IsSound (has_info j info) = WasLocated j info
  IsSound (has_best j info best_block) = WasLocated j info × WasBest best_block
  IsSound (has_params j info best_block params) =
      WasLocated j info × WasBest best_block × WasInForce info.tx_inclusion_height params

  -- The request is one that validation describes, for answers each given in some world.
  pub record WasApproved (request : SigningRequest btc) : Type 0 where
    pub job : Job btc
    pub info : TxInfo btc
    pub located : WasLocated job info
    pub best_block : ℕ
    pub best : WasBest best_block
    pub params : BabylonParams btc
    pub in_force : WasInForce info.tx_inclusion_height params
    pub approved :
        IsApproved staking app.net job.unbonding_tx job.staker_sig job.key info best_block params
          request

  module _ (requests_asked : W → List (SigningRequest btc)) where
    -- What a piece of a call may do
    pub record Goes (w : W) (x : Outcome (Next btc) × W) : Type 0 where
      pub asks : Asks requests_asked WasApproved w x.1
      pub goes_on : (c : Call btc) → x.0 ≡ ok (continues c) → IsSound c

    Fails-Goes :
        {A : Type 0} (r : Outcome A) (r' : Outcome (Next btc)) (w w' : W)
        → requests_asked w' ≡ requests_asked w
        → Fails r r'
        → Goes w (r', w')
    Fails-Goes r r' w w' same f = record {
      asks = Asks-none requests_asked WasApproved w w' same;
      goes_on = λ c h. absurd (Fails-ne-ok r (continues c) (subst (Fails r) h f));
    }

    continues-Goes :
        (c : Call btc) (w w' : W)
        → requests_asked w' ≡ requests_asked w
        → IsSound c
        → Goes w (ok (continues c), w')
    continues-Goes c w w' same sound = record {
      asks = Asks-none requests_asked WasApproved w w' same;
      goes_on = λ c' h. let same_call : c ≡ c' = cc in subst IsSound same_call sound;
    }

    module _ (laws : AskedLaws app requests_asked) where
      begins-Goes : (j : Job btc) (w : W) → Goes w (advance staking app (begins j) w)
      unfolding advance
      begins-Goes j w =
          bind_rule (Goes w) (lift (check_request staking j.pk_script j.unbonding_tx)) _ w
            (λ r f. Fails-Goes _ r w w refl f)
            λ _ checked.
              bind_rule (Goes w) (lift (first (btc.tx_in j.unbonding_tx))) _ w
                (λ r f. Fails-Goes _ r w w refl f)
                λ input spends.
                  let hash = (btc.previous_out_point input).hash in
                  let same = laws.tx_by_hash hash j.pk_script w in
                  let w₁ = (app.r.tx_by_hash hash j.pk_script w).1 in
                  bind_rule (Goes w) (app.r.tx_by_hash hash j.pk_script) _ w
                    (λ r f. Fails-Goes _ r w w₁ same f)
                    λ info has.
                      bind_rule (Goes w) (lift (check_inclusion_height app.cfg info)) _ w₁
                        (λ r f. Fails-Goes _ r w w₁ same f)
                        λ _ in_time. continues-Goes (has_info j info) w w₁ same (record {
                          well_formed =
                              check_request-IsWellFormed staking j.pk_script j.unbonding_tx checked;
                          input = input;
                          spends = first-eq-ok (btc.tx_in j.unbonding_tx) spends;
                          w = w;
                          w₁ = w₁;
                          has_info = ap (λ x. (x, w₁)) has;
                          in_time = (check_inclusion_height_iff app.cfg info).0 in_time;
                        })

      has_info-Goes :
          (j : Job btc) (info : TxInfo btc) (w : W)
          → WasLocated j info
          → Goes w (advance staking app (has_info j info) w)
      unfolding advance
      has_info-Goes j info w located =
          let same = laws.best_block_height w in
          let w₁ = (app.r.best_block_height w).1 in
          bind_rule (Goes w) app.r.best_block_height _ w (λ r f. Fails-Goes _ r w w₁ same f)
            λ best_block has.
              continues-Goes (has_best j info best_block) w w₁ same
                (located, record { w = w; w₁ = w₁; has_best = ap (λ x. (x, w₁)) has })

      has_best-Goes :
          (j : Job btc) (info : TxInfo btc) (best_block : ℕ) (w : W)
          → WasLocated j info
          → WasBest best_block
          → Goes w (advance staking app (has_best j info best_block) w)
      unfolding advance
      has_best-Goes j info best_block w located best =
          let height = info.tx_inclusion_height in
          let same = laws.params_by_height height w in
          let w₁ = (app.p.params_by_height height w).1 in
          bind_rule (Goes w) (app.p.params_by_height height) _ w (λ r f. Fails-Goes _ r w w₁ same f)
            λ params has.
              continues-Goes (has_params j info best_block params) w w₁ same
                (located, best, record { w = w; w₁ = w₁; has_params = ap (λ x. (x, w₁)) has })

      -- The wallet is asked at most for the request.
      raw_signature-Asks :
          (request : SigningRequest btc) (w : W)
          → WasApproved request
          → Asks requests_asked WasApproved w (app.s.raw_signature request w).1
      raw_signature-Asks request w approved = elim (laws.raw_signature request w) [
        | inl same ↦ Asks-none requests_asked WasApproved w _ same
        | inr more ↦ record { asked = request ∷ []; grows = more; validated = (approved, tt) }
      ]

      module _ (staking_laws : StakingLaws staking) (ranges : Ranges app) where
        has_params-Goes :
            (j : Job btc) (info : TxInfo btc) (best_block : ℕ) (params : BabylonParams btc) (w : W)
            (located : WasLocated j info) (best : WasBest best_block)
            (in_force : WasInForce info.tx_inclusion_height params)
            → Goes w (advance staking app (has_params j info best_block params) w)
        unfolding advance
        has_params-Goes j info best_block params w located best in_force =
            bind_rule (Goes w)
              (lift (
                signing_request staking app.net j.unbonding_tx j.staker_sig j.key info best_block
                  params))
              _ w (λ r f. Fails-Goes _ r w w refl f)
              λ request made.
                let asks = raw_signature-Asks request w (record {
                  job = j;
                  info = info;
                  located = located;
                  best_block = best_block;
                  best = best;
                  params = params;
                  in_force = in_force;
                  approved =
                      (signing_request_iff staking staking_laws app.net j.unbonding_tx j.staker_sig
                          j.key info best_block params (ranges.best_block _ _ _ best.has_best)
                          (ranges.height _ _ _ _ _ located.has_info)
                          (ranges.params _ _ _ _ in_force.has_params) request).0
                        made;
                }) in
                bind_rule (Goes w) (app.s.raw_signature request) _ w
                  (λ r f. record {
                    asks = asks;
                    goes_on = λ c h. absurd (Fails-ne-ok _ (continues c) (subst (Fails _) h f));
                  })
                  λ result signed. record { asks = asks; goes_on = λ c h. cc }

        pub advance-Goes : (c : Call btc) (w : W) → IsSound c → Goes w (advance staking app c w)
        advance-Goes (begins j) w sound = begins-Goes j w
        advance-Goes (has_info j info) w located = has_info-Goes j info w located
        advance-Goes (has_best j info best_block) w (located, best) =
            has_best-Goes j info best_block w located best
        advance-Goes (has_params j info best_block params) w (located, best, in_force) =
            has_params-Goes j info best_block params w located best in_force
