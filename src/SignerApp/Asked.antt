-- ===== src/SignerApp/Asked.antt =====
-- What the wallet was asked to sign, read off the world by `requests_asked`.
use covenant_signer.Prelude.{◌≡◌, ap, sym, ◌∙◌, ◌⊎◌, List, [], ◌∷◌, ◌++◌, All, All-append}
use mathlib.Core.List.{append_assoc}
use covenant_signer.Go.Text.{Bytes}
use covenant_signer.Btc.{Btc}
use covenant_signer.SignerApp.Interfaces.{SigningRequest}
use covenant_signer.SignerApp.Signer.{SignerApp}

-- The wallet's record of the requests that it was asked to sign: only the wallet writes it, and in
-- a call at most the request of that call.
pub record AskedLaws {btc : Btc} {W : Type 0} (app : SignerApp btc W)
    (requests_asked : W → List (SigningRequest btc)) : Type 0 where
  pub tx_by_hash :
      (hash : btc.Hash) (script : Bytes) (w : W)
      → requests_asked (app.r.tx_by_hash hash script w).1 ≡ requests_asked w
  pub best_block_height : (w : W) → requests_asked (app.r.best_block_height w).1 ≡ requests_asked w
  pub params_by_height :
      (height : _) (w : W) → requests_asked (app.p.params_by_height height w).1 ≡ requests_asked w
  pub raw_signature :
      (request : SigningRequest btc) (w : W)
      → (requests_asked (app.s.raw_signature request w).1 ≡ requests_asked w)
        ⊎ (requests_asked (app.s.raw_signature request w).1 ≡ request ∷ requests_asked w)

module _ {A W : Type 0} (requests_asked : W → List A) (P : A → Type 0) where
  -- What was asked between two worlds satisfies `P`.
  pub record Asks (w w' : W) : Type 0 where
    pub asked : List A
    pub grows : requests_asked w' ≡ asked ++ requests_asked w
    pub validated : All P asked

  pub Asks-none : (w w' : W) → requests_asked w' ≡ requests_asked w → Asks w w'
  Asks-none w w' h = record { asked = []; grows = h; validated = tt }

  pub Asks-then : (w w₁ w₂ : W) → Asks w w₁ → Asks w₁ w₂ → Asks w w₂
  Asks-then w w₁ w₂ a b = record {
    asked = b.asked ++ a.asked;
    grows =
        b.grows
        ∙ ap (λ l. b.asked ++ l) a.grows
        ∙ sym (append_assoc b.asked a.asked (requests_asked w));
    validated = All-append P b.asked a.asked b.validated a.validated;
  }
