-- ===== src/SignerService/Server/Asked.antt =====
-- When what the wallet was asked to sign passed validation.
use covenant_signer.Prelude.{◌≡◌, refl, List}
use covenant_signer.Go.Text.{Bytes}
use covenant_signer.Go.Outcome.{Outcome, ok, err, panicked}
use covenant_signer.Go.Exec.{continue, lift}
use covenant_signer.Btc.{Btc, Staking}
use covenant_signer.Observability.Metrics.{CovenantSignerMetrics}
use covenant_signer.SignerApp.Asked.{Asks, Asks-none, Asks-then}
use covenant_signer.SignerApp.Interfaces.{SigningRequest, SigningResult}
use covenant_signer.SignerApp.Signer.{SignerApp}
use covenant_signer.SignerApp.Signer.Flow.{signature_of}
use covenant_signer.SignerApp.Signer.Validation.{Validated}
use covenant_signer.SignerService.Handlers.{Handled, Result, finish}
use covenant_signer.SignerService.Http.{Json}
use covenant_signer.SignerService.Responses.{respond}

module _ {btc : Btc} (staking : Staking btc) {W : Type 0} (app : SignerApp btc W)
    (requests_asked : W → List (SigningRequest btc)) where
  -- Some arguments passed validation, in some world, and this is the request that they describe.
  pub record WasValidated (request : SigningRequest btc) : Type 0 where
    pub pk_script : Bytes
    pub unbonding_tx : btc.MsgTx
    pub staker_sig : btc.Signature
    pub key : btc.PublicKey
    pub w : W
    pub w₃ : W
    pub valid : Validated staking app pk_script unbonding_tx staker_sig key w request w₃

  -- What was asked between two worlds was validated.
  abbrev pub AsksValidated : W → W → Type 0
  AsksValidated = Asks requests_asked WasValidated

  pub AsksValidated-none : (w w' : W) → requests_asked w' ≡ requests_asked w → AsksValidated w w'
  AsksValidated-none = Asks-none requests_asked WasValidated

  pub AsksValidated-then :
      (w w₁ w₂ : W) → AsksValidated w w₁ → AsksValidated w₁ w₂ → AsksValidated w w₂
  AsksValidated-then = Asks-then requests_asked WasValidated

pub signature_of-world :
    {btc : Btc} {W : Type 0} (x : Outcome (SigningResult btc) × W)
    → (signature_of {btc = btc} x).1 ≡ x.1
signature_of-world (ok result, w) = refl
signature_of-world (err e, w) = refl
signature_of-world (panicked t, w) = refl

pub finish-world :
    (btc : Btc) {W : Type 0} (m : CovenantSignerMetrics) (x : Outcome btc.Signature × W)
    → (finish btc m x).1.1 ≡ x.1
unfolding finish
finish-world btc m (ok sig, w) = refl
finish-world btc m (err e, w) = refl
finish-world btc m (panicked t, w) = refl

pub respond-world :
    {S : Type 0} (json : Json) (r : Outcome (Handled Result)) (s : S)
    → (continue r (λ h. lift (ok (respond json h))) s).1 ≡ s
respond-world json (ok h) s = refl
respond-world json (err e) s = refl
respond-world json (panicked t) s = refl
