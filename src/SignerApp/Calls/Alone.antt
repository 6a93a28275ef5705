-- ===== src/SignerApp/Calls/Alone.antt =====
-- The pieces of a call with nothing in between.
use covenant_signer.Prelude.{◌≡◌, refl}
use covenant_signer.Go.Outcome.{Outcome, ok, err, panicked, first}
use covenant_signer.Go.Exec.{Exec, lift, continue, ◌>>=◌}
use covenant_signer.Btc.{Btc, Staking}
use covenant_signer.SignerApp.Signer.Checks.{check_request, check_inclusion_height, signing_request}
use covenant_signer.SignerApp.Signer.{SignerApp, sign_unbonding_transaction}
use covenant_signer.SignerApp.Calls.{Job, begins, continues, alone}

module _ {btc : Btc} (staking : Staking btc) {W : Type 0} (app : SignerApp btc W) where
  bind_agree :
      {A B C : Type 0} (m : Exec W A) (f : A → Exec W B) (k : B → Exec W C) (g : A → Exec W C)
      (w : W)
      → ((a : A) (w' : W) → (f a >>= k) w' ≡ g a w')
      → ((m >>= f) >>= k) w ≡ (m >>= g) w
  bind_agree m f k g w h = continue_agree (m w)
    where
      continue_agree :
          (x : Outcome _ × W)
          → continue (continue x.0 f x.1).0 k (continue x.0 f x.1).1 ≡ continue x.0 g x.1
      continue_agree (ok a, w') = h a w'
      continue_agree (err e, w') = refl
      continue_agree (panicked t, w') = refl

  -- The four pieces of a call, which end after each query and after the wallet's call, make up
  -- `SignUnbondingTransaction` when nothing happens between them: the same outcome in the same
  -- world.
  alone-sign_unbonding_transaction :
      (j : Job btc) (w : W)
      → alone staking app 4 (continues (begins j)) w
        ≡ sign_unbonding_transaction staking app j.pk_script j.unbonding_tx j.staker_sig j.key w
  unfolding alone sign_unbonding_transaction
  alone-sign_unbonding_transaction j w =
      bind_agree (lift (check_request staking j.pk_script j.unbonding_tx)) _ (alone staking app 3) _
        w
        λ _ w.
          bind_agree (lift (first (btc.tx_in j.unbonding_tx))) _ (alone staking app 3) _ w
            λ input w.
              bind_agree (app.r.tx_by_hash (btc.previous_out_point input).hash j.pk_script) _
                (alone staking app 3) _ w
                λ info w.
                  bind_agree (lift (check_inclusion_height app.cfg info)) _ (alone staking app 3) _
                    w
                    λ _ w.
                      bind_agree app.r.best_block_height _ (alone staking app 2) _ w λ best_block w.
                        bind_agree (app.p.params_by_height info.tx_inclusion_height) _
                          (alone staking app 1) _ w
                          λ params w.
                            bind_agree
                              (lift (
                                signing_request staking app.net j.unbonding_tx j.staker_sig j.key
                                  info best_block params))
                              _ (alone staking app 0) _ w
                              λ request w.
                                bind_agree (app.s.raw_signature request) _ (alone staking app 0) _ w
                                  λ result w. refl
