-- ===== src/Tests/Lifetime.antt =====
-- The life of a server whose wallet writes down what it is asked: a request is signed, another is
-- refused, and a block is found.
use covenant_signer.Prelude.{◌≡◌, refl, inr, List, [], ◌∷◌, ◌++◌}
use covenant_signer.Go.Text.{str, decimal_ℤ}
use covenant_signer.Go.Outcome.{ok}
use covenant_signer.Config.Default.{default_parsed}
use covenant_signer.SignerApp.Interfaces.{SigningRequest, ExternalBtcSigner}
use covenant_signer.SignerService.Handlers.{State}
use covenant_signer.SignerService.Http.{Request}
use covenant_signer.SignerService.Router.{HttpServer, use_all}
use covenant_signer.SignerService.Middlewares.{
  tracing_middleware, logging_middleware, content_length_middleware,
}
use covenant_signer.SignerService.Server.{new, setup_routes}
use covenant_signer.SignerApp.Asked.{AskedLaws}
use covenant_signer.SignerService.Server.Asked.{AsksValidated}
use covenant_signer.SignerService.Server.Lifetime.{Life, born, request, Life-AsksValidated}
use covenant_signer.Tests.Chain.{toy_btc, toy_staking, toy_laws}
use covenant_signer.Tests.Codec.{toy_json}
use covenant_signer.Tests.Router.{router, router_laws, still, still_unseen}
use covenant_signer.Tests.Service
use covenant_signer.Tests.Service.{metrics}
use covenant_signer.Tests.Signing.{app_with, ranges_with}

abbrev pub World : Type 0
World = List (SigningRequest toy_btc)

abbrev pub diary : ExternalBtcSigner toy_btc World
diary = record {
  raw_signature =
      λ request w. (ok (record { signature = request.covenant_public_key }), request ∷ w);
}

pub diary_laws : AskedLaws (app_with diary) (λ w. w)
diary_laws = record {
  tx_by_hash = λ hash script w. refl;
  best_block_height = λ w. refl;
  params_by_height = λ height w. refl;
  raw_signature = λ request w. inr refl;
}

abbrev S : Type 0
S = State World

abbrev server : HttpServer S
server = record {
  addr = default_parsed.server_config.host ++ b':' ∷ decimal_ℤ default_parsed.server_config.port;
  write_timeout = default_parsed.server_config.write_timeout;
  read_timeout = default_parsed.server_config.read_timeout;
  idle_timeout = default_parsed.server_config.idle_timeout;
  handler = (router S).serve_http (
      setup_routes toy_staking toy_json (app_with diary) (router S) (
        use_all (router S)
          (tracing_middleware (still S)
            ∷ logging_middleware (still S)
            ∷ content_length_middleware 8192
            ∷ [])
          (router S).new_router));
}

made : new toy_staking toy_json (app_with diary) (router S) (still S) default_parsed ≡ ok server
unfolding new
made = refl

abbrev start : S
start = (metrics, [])

-- The state after the request that the client sends, and after another one
abbrev after_signed : S
after_signed = (server.handler Service.request start).1

abbrev elsewhere : Request
elsewhere = record Service.request { path = str "/" }

abbrev after_both : S
after_both = (server.handler elsewhere after_signed).1

life :
    Life toy_staking
      (app_with diary)
      toy_laws
      (ranges_with diary)
      (λ w. w)
      diary_laws
      toy_json
      (router S)
      (router_laws S)
      (still S)
      (still_unseen S (λ s. s.1))
      default_parsed
      server
      made
      start
      after_both
life = request after_signed (request start born Service.request) elsewhere

Life-AsksValidated_example :
    AsksValidated toy_staking (app_with diary) (λ w. w) start.1 after_both.1
Life-AsksValidated_example =
    Life-AsksValidated toy_staking (app_with diary) toy_laws (ranges_with diary) (λ w. w) diary_laws
      toy_json (router S) (router_laws S) (still S) (still_unseen S (λ s. s.1)) default_parsed
      server made start after_both life
