-- ===== src/SignerService/Server/Lifetime.antt =====
-- A server's whole life: any requests, one after the other, and whatever else happens in between.
use covenant_signer.Prelude.{
  ◌≡◌, refl, ap, sym, subst, ◌∙◌, inl, inr, Bool-cases, List, [], ◌∷◌, ◌++◌, bytes_equal, ◌&&◌,
}
use covenant_signer.Prelude.Int.{pos, ltb_ℤ}
use covenant_signer.Go.Text.{Bytes, str}
use covenant_signer.Go.Outcome.{ok}
use covenant_signer.Btc.{Btc, Staking}
use covenant_signer.Config.{ParsedConfig}
use covenant_signer.SignerApp.Interfaces.{SigningRequest}
use covenant_signer.SignerApp.Signer.{SignerApp, sign_unbonding_transaction}
use covenant_signer.SignerApp.Signer.Approval.{StakingLaws}
use covenant_signer.SignerApp.Signer.Signing.{wallet-Untouched}
use covenant_signer.SignerApp.Signer.Validation.{Ranges}
use covenant_signer.SignerService.Handlers.{State, sign_unbonding}
use covenant_signer.SignerService.Handlers.Counters.{sign_unbonding-Finished}
use covenant_signer.SignerService.Http.{Request, Json}
use covenant_signer.SignerService.Middlewares.{Instruments, content_length_middleware}
use covenant_signer.SignerService.Responses.{register_handler}
use covenant_signer.SignerService.Router.{Chi, ChiLaws, HttpServer, dispatch}
use covenant_signer.SignerService.Server.{new}
use covenant_signer.SignerService.Server.Logs.{IsUnseen, opened, opened-keeps, logged-keeps}
use covenant_signer.SignerService.Server.Routes.{inside, handler-served}
use covenant_signer.SignerApp.Asked.{AskedLaws}
use covenant_signer.SignerService.Server.Asked.{
  AsksValidated, AsksValidated-none, AsksValidated-then, signature_of-world, finish-world,
  respond-world,
}

module _ {btc : Btc} (staking : Staking btc) {W : Type 0} (app : SignerApp btc W)
    (laws : StakingLaws staking) (ranges : Ranges app)
    (requests_asked : W → List (SigningRequest btc))
    (asked_laws : AskedLaws app requests_asked) where
  -- One call of `SignUnbondingTransaction`
  sign-AsksValidated :
      (pk_script : Bytes) (tx : btc.MsgTx) (sig : btc.Signature) (key : btc.PublicKey) (w : W)
      → AsksValidated staking app requests_asked w
          (sign_unbonding_transaction staking app pk_script tx sig key w).1
  sign-AsksValidated pk_script tx sig key w =
      elim (wallet-Untouched staking app pk_script tx sig key w laws ranges requests_asked
        asked_laws.tx_by_hash asked_laws.best_block_height asked_laws.params_by_height) [
          | inl untouched ↦ AsksValidated-none staking app requests_asked w _ untouched
          | inr (request, w₃, valid, same, ends) ↦
              let left =
                ap (λ x. requests_asked x.1) ends
                ∙ ap requests_asked (signature_of-world (app.s.raw_signature request w₃)) in
              elim (asked_laws.raw_signature request w₃) [
                | inl silent ↦
                    AsksValidated-none staking app requests_asked w _ (left ∙ silent ∙ same)
                | inr written ↦ record {
                  asked = request ∷ [];
                  grows = left ∙ written ∙ ap (λ l. request ∷ l) same;
                  validated = (
                    record {
                      pk_script = pk_script;
                      unbonding_tx = tx;
                      staker_sig = sig;
                      key = key;
                      w = w;
                      w₃ = w₃;
                      valid = valid;
                    },
                    tt,
                  );
                }
              ]
        ]

  module _ (json : Json) where
    -- One call of the handler
    handle-AsksValidated :
        (request : Request) (s : State W)
        → AsksValidated staking app requests_asked s.1
            (register_handler json (sign_unbonding staking json app) request s).1.1
    unfolding register_handler
    handle-AsksValidated request (m, w) =
        let x = sign_unbonding staking json app request (m, w) in
        rw (respond-world json x.0 x.1)
          (elim (sign_unbonding-Finished staking json app request m w) [
            | inl (refused, same) ↦
                AsksValidated-none staking app requests_asked w _
                  (ap (λ (s : State W). requests_asked s.1) same)
            | inr (args, decoded, same) ↦
                let y =
                  sign_unbonding_transaction staking app args.pk_script args.unbonding_tx
                    args.staker_unbonding_sig args.covenant_public_key w in
                subst (AsksValidated staking app requests_asked w)
                  (sym (ap (λ z. z.1.1) same ∙ finish-world btc _ y))
                  (sign-AsksValidated args.pk_script args.unbonding_tx args.staker_unbonding_sig
                    args.covenant_public_key w)
          ])

    module _ (chi : Chi (State W)) (chi_laws : ChiLaws chi) (i : Instruments (State W))
        (unseen : IsUnseen i (λ (s : State W). requests_asked s.1)) (cfg : ParsedConfig)
        (server : HttpServer (State W)) (made : new staking json app chi i cfg ≡ ok server) where
      dispatch-AsksValidated :
          (r : Request) (s : State W)
          → AsksValidated staking app requests_asked s.1
              (dispatch chi
                (str "/v1/sign-unbonding-tx")
                (register_handler json (sign_unbonding staking json app))
                r
                s).1.1
      dispatch-AsksValidated r s =
          elim (Bool-cases (
            bytes_equal r.method (str "POST")
            && bytes_equal r.path (str "/v1/sign-unbonding-tx"))) [
              | inl here ↦ rw here (handle-AsksValidated r s)
              | inr other ↦ rw other (
                  AsksValidated-none staking app requests_asked s.1 _
                    (ap (λ (t : State W). requests_asked t.1) (chi_laws.refuse_keeps r s)))
            ]

      inside-AsksValidated :
          (r : Request) (s t : State W)
          → AsksValidated staking app requests_asked t.1
              (inside staking json app chi chi_laws i cfg server made r s t).1.1
      unfolding content_length_middleware
      inside-AsksValidated r s t =
          elim (Bool-cases (ltb_ℤ (pos cfg.server_config.max_content_length) r.content_length)) [
            | inl large ↦ rw large (AsksValidated-none staking app requests_asked t.1 _ refl)
            | inr within ↦ rw within (dispatch-AsksValidated _ t)
          ]

      -- One request to the server
      handler-AsksValidated :
          (r : Request) (s : State W)
          → AsksValidated staking app requests_asked s.1 (server.handler r s).1.1
      handler-AsksValidated r s =
          let view = λ (u : State W). requests_asked u.1 in
          let run = inside staking json app chi chi_laws i cfg server made r s in
          let start = opened i r.path s in
          let done = run start in
          let part = inside-AsksValidated r s start in
          record {
            asked = part.asked;
            grows =
                ap (λ x. view x.1)
                  (handler-served staking json app chi chi_laws i cfg server made r s)
                ∙ logged-keeps i view unseen r.path run s
                ∙ part.grows
                ∙ ap (λ l. part.asked ++ l) (opened-keeps i view unseen r.path s);
            validated = part.validated;
          }

      -- Requests come one after the other, and in between the world changes as it will, but for
      -- the wallet's record.
      pub data Life (s : State W) : State W → Type 0 where
        born : Life s s
        request : (t : State W) → Life s t → (r : Request) → Life s (server.handler r t).1
        meanwhile : (t u : State W) → Life s t → requests_asked u.1 ≡ requests_asked t.1 → Life s u

      -- Under the laws of chi and of btcstaking and with answers in the ranges of their types,
      -- let only the wallet write the record of what it was asked to sign, in a call at most
      -- that call's request, and let the log, the clock and the source of trace ids not touch
      -- it. Then in any life of a new server, requests one after the other with any changes in
      -- between that leave the record alone, each request that was added to the record is one
      -- that validation described for some arguments in some world.
      pub Life-AsksValidated :
          (s t : State W) → Life s t → AsksValidated staking app requests_asked s.1 t.1
      Life-AsksValidated s _ born = AsksValidated-none staking app requests_asked s.1 _ refl
      Life-AsksValidated s _ (request t life r) =
          AsksValidated-then staking app requests_asked s.1 t.1 _ (Life-AsksValidated s t life)
            (handler-AsksValidated r t)
      Life-AsksValidated s _ (meanwhile t u life same) =
          AsksValidated-then staking app requests_asked s.1 t.1 u.1 (Life-AsksValidated s t life)
            (AsksValidated-none staking app requests_asked t.1 u.1 same)
