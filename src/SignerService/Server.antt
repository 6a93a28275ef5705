-- ===== src/SignerService/Server.antt =====
-- signerservice/server.go. `serve` is the chain of a request to /v1/sign-unbonding-tx inside of the
-- tracing and logging middlewares.
pub mod Laws
pub mod Logs
pub mod Routes
pub mod Asked
pub mod Lifetime
use covenant_signer.Prelude.{ℕ, ◌++◌, ◌∷◌}
use covenant_signer.Go.Text.{GoString, str, decimal_ℤ}
use covenant_signer.Go.Outcome.{Outcome, ok}
use covenant_signer.Go.Exec.{Exec, call}
use covenant_signer.Btc.{Btc, Staking}
use covenant_signer.Config.{ParsedConfig}
use covenant_signer.SignerApp.Signer.{SignerApp}
use covenant_signer.SignerService.Http.{Request, Response, Json}
use covenant_signer.SignerService.Handlers.{State, sign_unbonding}
use covenant_signer.SignerService.Responses.{register_handler}
use covenant_signer.SignerService.Middlewares.{
  Handler, content_length_middleware, Instruments, tracing_middleware, logging_middleware,
}
use covenant_signer.SignerService.Router.{Chi, HttpServer, Listening}

module _ {btc : Btc} (staking : Staking btc) (json : Json) {W : Type 0}
    (app : SignerApp btc W) where
  unfoldable pub serve : ℕ → Request → Exec (State W) Response
  unfolding content_length_middleware register_handler sign_unbonding
  serve max_content_length =
      content_length_middleware max_content_length
        (register_handler json (sign_unbonding staking json app))

  -- `SetupRoutes`
  unfoldable pub setup_routes : (chi : Chi (State W)) → chi.Mux → chi.Mux
  unfolding register_handler sign_unbonding
  setup_routes chi r =
      chi.post (str "/v1/sign-unbonding-tx")
        (register_handler json (sign_unbonding staking json app)) r

  -- `New`. The server keeps a pointer to the router, and so serves the routes that are set up after
  -- it was given the router. `NewHandler` returns no error.
  unfoldable pub new :
      Chi (State W) → Instruments (State W) → ParsedConfig → Outcome (HttpServer (State W))
  unfolding setup_routes tracing_middleware logging_middleware content_length_middleware
  new chi i cfg =
      let r = chi.use_middleware (tracing_middleware i) chi.new_router in
      let r = chi.use_middleware (logging_middleware i) r in
      let r =
        chi.use_middleware (content_length_middleware cfg.server_config.max_content_length) r in
      ok (record {
        addr = cfg.server_config.host ++ b':' ∷ decimal_ℤ cfg.server_config.port;
        write_timeout = cfg.server_config.write_timeout;
        read_timeout = cfg.server_config.read_timeout;
        idle_timeout = cfg.server_config.idle_timeout;
        handler = chi.serve_http (setup_routes chi r);
      })

module _ {S : Type 0} (listening : Listening S) where
  -- `Start` and `Stop`
  unfoldable pub start : HttpServer S → Exec S (Unit {0})
  start server = call (listening.listen_and_serve server)

  unfoldable pub stop : HttpServer S → Exec S (Unit {0})
  stop server = call (listening.shutdown server)
