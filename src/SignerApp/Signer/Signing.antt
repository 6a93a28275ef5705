-- ===== src/SignerApp/Signer/Signing.antt =====
-- What `SignUnbondingTransaction` promises: it signs exactly the requests that docs/validation.md
-- allows, and no other request reaches the wallet.
use covenant_signer.Prelude.{ℕ, ◌≡◌, refl, ap, sym, ◌∙◌, subst, ◌↔◌, ◌⊎◌, inl, inr}
use covenant_signer.Go.Text.{Bytes}
use covenant_signer.Go.Outcome.{Outcome, ok, err, panicked}
use covenant_signer.Go.Exec.{Fails, Fails-ne-ok}
use covenant_signer.Btc.{Btc, Staking}
use covenant_signer.SignerApp.Interfaces.{SigningRequest, SigningResult}
use covenant_signer.SignerApp.Signer.{SignerApp, sign_unbonding_transaction}
use covenant_signer.SignerApp.Signer.Approval.{StakingLaws}
use covenant_signer.SignerApp.Signer.Validation.{
  Ranges, Validated, Queried-Validated, Validated-sign,
}
use covenant_signer.SignerApp.Signer.Flow.{
  signature_of, Queried, Located, Ends, bad_request, no_input, no_tx, too_late, no_best, no_params,
  not_approved, asked, sign-Ends,
}

module _ {btc : Btc} {W : Type 0} where
  signature_of-eq-ok :
      (x : Outcome (SigningResult btc) × W) (s : btc.Signature)
      → (signature_of x).0 ≡ ok s
      → (result : SigningResult btc) × (x ≡ (ok result, (signature_of x).1))
        × (result.signature ≡ s)
  signature_of-eq-ok (ok result, w) s h = (result, refl, cc)
  signature_of-eq-ok (err e, w) s h = cc
  signature_of-eq-ok (panicked t, w) s h = cc

module _ {btc : Btc} (staking : Staking btc) {W : Type 0} (app : SignerApp btc W)
    (pk_script : Bytes) (unbonding_tx : btc.MsgTx) (staker_sig : btc.Signature)
    (key : btc.PublicKey) (w : W) where
  abbrev Ended : Outcome btc.Signature → W → Type 0
  Ended = Ends staking app pk_script unbonding_tx staker_sig key w

  -- What the wallet signed
  abbrev pub Signed : btc.Signature → W → Type 0
  Signed s w' =
      (request : SigningRequest btc) × (w₃ : W) × (result : SigningResult btc) × Validated staking
        app pk_script unbonding_tx staker_sig key w request w₃
      × (app.s.raw_signature request w₃ ≡ (ok result, w'))
      × (result.signature ≡ s)

  module _ (laws : StakingLaws staking) (ranges : Ranges app) where
    Ends-Signed :
        {r : Outcome btc.Signature} {w' : W} (s : btc.Signature)
        → Ended r w'
        → r ≡ ok s
        → Signed s w'
    Ends-Signed s (bad_request f) e = absurd (Fails-ne-ok _ s (subst (Fails _) e f))
    Ends-Signed s (no_input c f) e = absurd (Fails-ne-ok _ s (subst (Fails _) e f))
    Ends-Signed s (no_tx i checked spends f) e = absurd (Fails-ne-ok _ s (subst (Fails _) e f))
    Ends-Signed s (too_late l f) e = absurd (Fails-ne-ok _ s (subst (Fails _) e f))
    Ends-Signed s (no_best l in_time f) e = absurd (Fails-ne-ok _ s (subst (Fails _) e f))
    Ends-Signed s (no_params l best in_time has_best f) e =
        absurd (Fails-ne-ok _ s (subst (Fails _) e f))
    Ends-Signed s (not_approved q f) e = absurd (Fails-ne-ok _ s (subst (Fails _) e f))
    Ends-Signed s (asked {w₃} q request approved) e =
        let (result, answered, same) = signature_of-eq-ok (app.s.raw_signature request w₃) s e in
        (
          request,
          w₃,
          result,
          Queried-Validated staking app pk_script unbonding_tx staker_sig key w laws ranges q
              request approved,
          answered,
          same,
        )

    -- Under the laws of btcstaking and with answers in the ranges of their types, a call returns
    -- the signature `s` and leaves the world `w'` exactly if the request passes the validation
    -- of docs/validation.md against what the three queries answer, and the wallet, asked for the
    -- request that the validation describes, returned `s` and left `w'`.
    pub sign_unbonding_transaction_iff :
        (s : btc.Signature) (w' : W)
        → (sign_unbonding_transaction staking app pk_script unbonding_tx staker_sig key w
            ≡ (ok s, w'))
          ↔ Signed s w'
    sign_unbonding_transaction_iff s w' = (
      λ h.
          Ends-Signed s
            (subst (λ x. Ended x.0 x.1) h
              (sign-Ends staking app pk_script unbonding_tx staker_sig key w))
            refl,
      λ (request, w₃, result, valid, answered, same).
          Validated-sign staking app pk_script unbonding_tx staker_sig key w laws ranges request w₃
            valid
          ∙ (rw answered (ap (λ x. (ok x, w')) same)),
    )

    -- A world is seen through `view` as far as the wallet is concerned: no query changes it.
    module _ {V : Type 0} (view : W → V)
        (tx_by_hash_keeps : (hash : btc.Hash) (script : Bytes) (u : W)
          → view (app.r.tx_by_hash hash script u).1 ≡ view u)
        (best_block_height_keeps : (u : W) → view (app.r.best_block_height u).1 ≡ view u)
        (params_by_height_keeps : (height : ℕ) (u : W)
          → view (app.p.params_by_height height u).1 ≡ view u) where
      abbrev pub Untouched : Outcome btc.Signature → W → Type 0
      Untouched r w' =
          (view w' ≡ view w)
          ⊎ ((request : SigningRequest btc) × (w₃ : W) × Validated staking app pk_script
                unbonding_tx staker_sig key w request w₃
              × (view w₃ ≡ view w)
              × ((r, w') ≡ signature_of (app.s.raw_signature request w₃)))

      Located-keeps :
          {w₁ : W}
          → Located staking app pk_script unbonding_tx staker_sig key w w₁
          → view w₁ ≡ view w
      Located-keeps l = ap (λ x. view x.1) (sym l.has_info) ∙ tx_by_hash_keeps _ _ w

      Queried-keeps :
          {w₃ : W}
          → Queried staking app pk_script unbonding_tx staker_sig key w w₃
          → view w₃ ≡ view w
      Queried-keeps q =
          ap (λ x. view x.1) (sym q.has_params)
          ∙ params_by_height_keeps _ q.w₂
          ∙ ap (λ x. view x.1) (sym q.has_best)
          ∙ best_block_height_keeps q.w₁
          ∙ Located-keeps q.located

      Ends-Untouched : {r : Outcome btc.Signature} {w' : W} → Ended r w' → Untouched r w'
      Ends-Untouched (bad_request f) = inl refl
      Ends-Untouched (no_input c f) = inl refl
      Ends-Untouched (no_tx i checked spends f) = inl (tx_by_hash_keeps _ _ w)
      Ends-Untouched (too_late l f) = inl (Located-keeps l)
      Ends-Untouched (no_best l in_time f) = inl (best_block_height_keeps _ ∙ Located-keeps l)
      Ends-Untouched (no_params l best in_time has_best f) =
          inl (params_by_height_keeps _ _ ∙ best_block_height_keeps _ ∙ Located-keeps l)
      Ends-Untouched (not_approved q f) = inl (Queried-keeps q)
      Ends-Untouched (asked {w₃} q request approved) = inr (
        request,
        w₃,
        Queried-Validated staking app pk_script unbonding_tx staker_sig key w laws ranges q request
            approved,
        Queried-keeps q,
        refl,
      )

      -- Under the laws of btcstaking and with answers in the ranges of their types, let no query
      -- change the part of the world that `view` shows. Then after a call that part is as
      -- before, or the request passed validation and the call ended as the wallet's did, in a
      -- world where that part was still as before.
      pub wallet-Untouched :
          let (r, w') =
            sign_unbonding_transaction staking app pk_script unbonding_tx staker_sig key w in
          Untouched r w'
      wallet-Untouched =
          Ends-Untouched (sign-Ends staking app pk_script unbonding_tx staker_sig key w)
