-- ===== src/SignerService/Server/Routes.antt =====
-- What the server's router answers: the chain of the signing endpoint inside of the tracing and the
-- logging of the request, and a refusal for every other request.
use covenant_signer.Prelude.{
  ◌≡◌, ◌≢◌, refl, true, ap, sym, ◌∙◌, ◌⊎◌, some, Bool-cases, inl, inr, [], ◌∷◌,
}
use covenant_signer.Prelude.Int.{pos, ltb_ℤ}
use covenant_signer.Go.Text.{str}
use covenant_signer.Go.Outcome.{ok, ok-injective}
use covenant_signer.Go.Exec.{Exec}
use covenant_signer.Btc.{Btc, Staking}
use covenant_signer.Config.{ParsedConfig}
use covenant_signer.Observability.Tracing.{
  Logger, trace_id_of, trace_info_of, attach_tracing_into_context,
}
use covenant_signer.SignerApp.Signer.{SignerApp}
use covenant_signer.SignerService.Http.{Request, Response, Json}
use covenant_signer.SignerService.Handlers.{State, sign_unbonding}
use covenant_signer.SignerService.Responses.{register_handler}
use covenant_signer.SignerService.Middlewares.{
  Handler, content_length_middleware, Instruments, request_received, tracing_middleware,
  logging_middleware,
}
use covenant_signer.SignerService.Router.{
  is_literal, Chi, ChiLaws, HttpServer, wrap, dispatch, dispatch_fits, dispatch_misses,
}
use covenant_signer.SignerService.Server.Logs.{
  logged, within_logger, log_completed-completed, IsUnseen, opened-keeps, logged-keeps,
}
use covenant_signer.SignerService.Server.{serve, new, setup_routes}

module _ {btc : Btc} (staking : Staking btc) (json : Json) {W : Type 0} (app : SignerApp btc W)
    (chi : Chi (State W)) (chi_laws : ChiLaws chi) (i : Instruments (State W)) (cfg : ParsedConfig)
    (server : HttpServer (State W)) (made : new staking json app chi i cfg ≡ ok server) where
  route_is_literal : is_literal (str "/v1/sign-unbonding-tx") ≡ true
  unfolding str
  route_is_literal = refl

  handler-chain :
      (r : Request) (s : State W) (next : Handler (State W))
      → wrap
          (tracing_middleware i
            ∷ logging_middleware i
            ∷ content_length_middleware cfg.server_config.max_content_length
            ∷ [])
          next
          r
          s
        ≡ logged i r.path
            (content_length_middleware cfg.server_config.max_content_length next
              (within_logger i r s))
            s
  unfolding tracing_middleware logging_middleware trace_id_of attach_tracing_into_context
      trace_info_of
  handler-chain r s next =
      let (trace_id, s₁) = i.new_uuid s in
      let (start_time, s₂) = i.start_clock s₁ in
      let logger : Logger = record { path = r.path; trace_id = some trace_id } in
      log_completed-completed i (within_logger i r s) r.path trace_id start_time
        (content_length_middleware cfg.server_config.max_content_length next (within_logger i r s)
          (i.write_line (request_received logger) s₂))
        refl

  abbrev pub handle : Handler (State W)
  handle = register_handler json (sign_unbonding staking json app)

  -- What runs between the two lines of the log
  abbrev pub inside : Request → State W → Exec (State W) Response
  inside r s =
      content_length_middleware cfg.server_config.max_content_length
        (dispatch chi (str "/v1/sign-unbonding-tx") handle) (within_logger i r s)

  pub handler-served :
      (r : Request) (s : State W) → server.handler r s ≡ logged i r.path (inside r s) s
  unfolding new setup_routes
  handler-served r s =
      ap (λ x. x.handler r s) (sym (ok-injective made))
      ∙ chi_laws.served
          (tracing_middleware i
            ∷ logging_middleware i
            ∷ content_length_middleware cfg.server_config.max_content_length
            ∷ [])
          (str "/v1/sign-unbonding-tx") handle r s route_is_literal
      ∙ handler-chain r s (dispatch chi (str "/v1/sign-unbonding-tx") handle)

  -- Under the laws of chi, the handler of a new server answers a POST at /v1/sign-unbonding-tx
  -- as the chain of the limit on the length, the decoding and the signing does, between two
  -- lines of the log that have the request's path and one new trace id, the second only if the
  -- chain returns a response.
  pub handler-routed :
      (r : Request) (s : State W)
      → r.method ≡ str "POST"
      → r.path ≡ str "/v1/sign-unbonding-tx"
      → server.handler r s
        ≡ logged i r.path (serve staking json app cfg.server_config.max_content_length r) s
  unfolding serve content_length_middleware register_handler sign_unbonding
  handler-routed r s post here =
      handler-served r s ∙ (rw (dispatch_fits (str "/v1/sign-unbonding-tx") r post here) refl)

  module _ {V : Type 0} (view : State W → V) (unseen : IsUnseen i view) where
    refused_keeps :
        (r : Request) (s : State W)
        → (r.method ≢ str "POST") ⊎ (r.path ≢ str "/v1/sign-unbonding-tx")
        → (content_length_middleware cfg.server_config.max_content_length
            (dispatch chi (str "/v1/sign-unbonding-tx") handle)
            r
            s).1
          ≡ s
    unfolding content_length_middleware
    refused_keeps r s other =
        elim (Bool-cases (ltb_ℤ (pos cfg.server_config.max_content_length) r.content_length)) [
          | inl large ↦ rw large
          | inr within ↦
              rw (within, dispatch_misses (str "/v1/sign-unbonding-tx") r other)
                (chi_laws.refuse_keeps _ s)
        ]

    -- Under the laws of chi, a request with another method or another path changes nothing of
    -- the state that the log, the clock and the source of trace ids do not change.
    pub handler-missed :
        (r : Request) (s : State W)
        → (r.method ≢ str "POST") ⊎ (r.path ≢ str "/v1/sign-unbonding-tx")
        → view (server.handler r s).1 ≡ view s
    handler-missed r s other =
        ap (λ x. view x.1) (handler-served r s)
        ∙ logged-keeps i view unseen r.path (inside r s) s
        ∙ ap view (refused_keeps (within_logger i r s) _ other)
        ∙ opened-keeps i view unseen r.path s
