-- ===== src/Tests/Wiring.antt =====
-- A service that is prepared from the small parts, and runs of it.
use covenant_signer.Prelude.{
  ℕ, List, ◌≡◌, ◌≢◌, ◌↔◌, inl, refl, ap, ◌∙◌, true, false, [], ◌∷◌, ◌++◌, bytes_equal, arith,
}
use covenant_signer.Prelude.Int.{pos}
use covenant_signer.Go.Text.{str, decimal_ℤ}
use covenant_signer.Go.Outcome.{ok, or_err}
use covenant_signer.BtcClient.Connection.{new_btc_client}
use covenant_signer.Config.{default_config}
use covenant_signer.Config.Default.{default_parsed, parse-default_config}
use covenant_signer.Config.Files.{get_config}
use covenant_signer.Observability.Metrics.{
  inc_received_signing_requests, inc_successful_signing_requests,
}
use covenant_signer.Observability.Registry.{Collector}
use covenant_signer.Observability.Metrics.{no_requests, new_covenant_signer_metrics}
use covenant_signer.Observability.Endpoint.Laws.{signing_counters}
use covenant_signer.SignerApp.Assembly.{SignedFrom, assembled-Signed_iff, assembled_signs_iff}
use covenant_signer.SignerApp.PsbtSigner.{psbt_signer}
use covenant_signer.SignerApp.Signer.{sign_unbonding_transaction}
use covenant_signer.SignerApp.Signer.Signing.{Signed}
use covenant_signer.SignerApp.ParamsRetriever.{new_versioned_params_retriever}
use covenant_signer.SignerService.Http.{Request}
use covenant_signer.SignerService.Middlewares.{
  tracing_middleware, logging_middleware, content_length_middleware,
}
use covenant_signer.SignerService.Router.{HttpServer, use_all}
use covenant_signer.SignerService.Server.{serve, new, setup_routes}
use covenant_signer.SignerService.Server.Logs.{completed, logged}
use covenant_signer.SignerService.Server.Routes.{handler-routed, handler-missed}
use covenant_signer.Cmd.{Prepared, prepare, signer_app}
use covenant_signer.Cmd.Laws.{Serves, prepare-Serves}
use covenant_signer.Cmd.Client.{client-Signed}
use covenant_signer.Cmd.Delivery.{client_served}
use covenant_signer.Go.Exec.{continue, lift}
use covenant_signer.Go.Hex.{encode_to_string, decode_string, digit}
use covenant_signer.SignerService.Client.{request_covenant_signaure, read_response, read_all_max}
use covenant_signer.SignerService.Client.Network.{path_at, over, arrives}
use covenant_signer.Utils.{serialize_btc_tx, serialize_btc_tx_to_hex, schnor_signature_from_hex}
use covenant_signer.Cmd.Service.{serving_app, Endorsed, Serves-Endorsed}
use covenant_signer.Tests.Chain.{staker, covenant_2, toy_btc, toy_staking, toy_laws}
use covenant_signer.Tests.Codec.{toy_json, toy_codec, write_request}
use covenant_signer.Tests.Nodes.{toy_rpc, toy_psbt}
use covenant_signer.Tests.Service.{
  sent, sent_fits, response_fits, tx_bytes, request, metrics, served, serve_signed,
}
use covenant_signer.Tests.Router.{still_unseen}
use covenant_signer.Tests.Signing.{unbonding_tx}
use covenant_signer.Tests.Parts.{
  toy_prometheus, S, toy_chi, toy_chi_laws, still_instruments, toy_networks, parts, sources, signer,
  signer_run,
}

assembled_signs_iff_example :
    (sign_unbonding_transaction toy_staking signer (5 ∷ []) unbonding_tx staker covenant_2 0
      ≡ (ok covenant_2, 0))
    ↔ SignedFrom toy_rpc toy_networks tt toy_staking
        (psbt_signer toy_psbt toy_staking toy_rpc)
        default_parsed.signer_app_config
        0
        (5 ∷ [])
        unbonding_tx
        staker
        covenant_2
        0
        covenant_2
        0
assembled_signs_iff_example =
    assembled_signs_iff toy_rpc toy_networks tt sources toy_staking toy_laws
      (psbt_signer toy_psbt toy_staking toy_rpc) default_parsed.signer_app_config 0 (5 ∷ [])
      unbonding_tx staker covenant_2 0 0 covenant_2

abbrev made_server : HttpServer S
made_server = record {
  addr = default_parsed.server_config.host ++ b':' ∷ decimal_ℤ default_parsed.server_config.port;
  write_timeout = default_parsed.server_config.write_timeout;
  read_timeout = default_parsed.server_config.read_timeout;
  idle_timeout = default_parsed.server_config.idle_timeout;
  handler = toy_chi.serve_http (
      setup_routes toy_staking toy_json signer toy_chi (
        use_all toy_chi
          (tracing_middleware still_instruments
            ∷ logging_middleware still_instruments
            ∷ content_length_middleware 8192
            ∷ [])
          toy_chi.new_router));
}

made : new toy_staking toy_json signer toy_chi still_instruments default_parsed ≡ ok made_server
unfolding new
made = refl

handler-routed_example :
    made_server.handler request (metrics, 0)
    ≡ logged still_instruments
        (str "/v1/sign-unbonding-tx")
        (serve toy_staking toy_json signer 8192 request)
        (metrics, 0)
handler-routed_example =
    handler-routed toy_staking toy_json signer toy_chi toy_chi_laws still_instruments default_parsed
      made_server made request (metrics, 0) refl refl

-- A request with another method
abbrev got : Request
got = record request { method = str "GET" }

get_other : got.method ≢ str "POST"
unfolding str bytes_equal
get_other h = let wrong : false ≡ true = ap (λ method. bytes_equal method (str "POST")) h in cc

handler-missed_example : (made_server.handler got (metrics, 0)).1 ≡ (metrics, 0)
handler-missed_example =
    handler-missed toy_staking toy_json signer toy_chi toy_chi_laws still_instruments default_parsed
      made_server made (λ s. s) (still_unseen S (λ s. s)) got (metrics, 0) (inl get_other)

abbrev prepared : Prepared ℕ (List Collector)
prepared = record {
  server = made_server;
  metrics_address = default_config.metrics.host ++ b':' ∷ decimal_ℤ default_config.metrics.port;
  metrics = (signing_counters, no_requests);
}

prepare_run : prepare parts 0 ≡ (ok prepared, 0)
unfolding prepare get_config new_versioned_params_retriever new_btc_client signer_app new
    new_covenant_signer_metrics no_requests str bytes_equal
prepare_run = rw (parse-default_config (λ text. true) refl) refl

-- The state that the small request leaves
abbrev answered : S
answered = (inc_successful_signing_requests (inc_received_signing_requests metrics), 0)

handler_run : made_server.handler request (metrics, 0) ≡ (ok served, answered)
handler_run =
    handler-routed toy_staking toy_json signer toy_chi toy_chi_laws still_instruments default_parsed
      made_server made request (metrics, 0) refl refl
    ∙ ap (completed still_instruments (str "/v1/sign-unbonding-tx") [] (pos 0))
        (serve_signed signer 0 signer_run)

Serves-Endorsed_example :
    Endorsed parts (prepare-Serves parts 0 0 prepared prepare_run) request (metrics, 0) served
Serves-Endorsed_example =
    Serves-Endorsed parts (prepare-Serves parts 0 0 prepared prepare_run) toy_chi_laws toy_laws
      sources request (metrics, 0) answered served refl refl handler_run refl

-- The client against the running service
client_run :
    request_covenant_signaure toy_btc toy_json
      (over [] made_server.handler)
      []
      unbonding_tx
      staker
      covenant_2
      (5 ∷ [])
      (metrics, 0)
    ≡ (ok covenant_2, answered)
unfolding request_covenant_signaure serialize_btc_tx_to_hex serialize_btc_tx read_response
    read_all_max schnor_signature_from_hex encode_to_string decode_string digit path_at setup_routes
client_run =
    ap
      (λ x.
        let (r, s) = arrives x in
        continue (or_err r) (λ res. lift (read_response toy_btc toy_json res)) s)
      handler_run

client-Signed_example :
    (w₁ : ℕ) × Signed toy_staking
      (serving_app parts (prepare-Serves parts 0 0 prepared prepare_run))
      (5 ∷ [])
      unbonding_tx
      staker
      covenant_2
      0
      covenant_2
      w₁
client-Signed_example =
    client-Signed parts (prepare-Serves parts 0 0 prepared prepare_run) toy_chi_laws toy_laws
      sources toy_codec [] unbonding_tx staker covenant_2 (5 ∷ []) tx_bytes (omega arith, tt) refl
      (metrics, 0) covenant_2 answered client_run

-- The service with its parts in sight
has_default_config : get_config parts.fs parts.viper [] 0 ≡ (ok default_config, 0)
unfolding get_config
has_default_config = refl

registered : new_covenant_signer_metrics toy_prometheus ≡ ok (signing_counters, no_requests)
unfolding new_covenant_signer_metrics no_requests str bytes_equal
registered = refl

abbrev service : Serves parts 0 prepared 0
service = record {
  path = [];
  has_path = refl;
  cfg = default_config;
  w₁ = 0;
  has_cfg = has_default_config;
  parsed = default_parsed;
  parses = parse-default_config (λ text. true) refl;
  params = tt;
  has_params = refl;
  full_node = tt;
  connects = refl;
  wallet = tt;
  connects_wallet = refl;
  addr = refl;
  registers = registered;
  metrics_addr = refl;
  made = made;
}

toy-Signed :
    Signed toy_staking
      (serving_app parts service)
      (5 ∷ [])
      unbonding_tx
      staker
      covenant_2
      0
      covenant_2
      0
toy-Signed =
    (assembled-Signed_iff toy_rpc toy_networks tt sources toy_staking toy_laws
        (psbt_signer toy_psbt toy_staking toy_rpc) default_parsed.signer_app_config 0 (5 ∷ [])
        unbonding_tx staker covenant_2 0 0 covenant_2).0
      signer_run

client_served_example :
    (request_covenant_signaure toy_btc toy_json
      (over [] made_server.handler)
      []
      unbonding_tx
      staker
      covenant_2
      (5 ∷ [])
      (metrics, 0)).0
    ≡ ok covenant_2
client_served_example =
    client_served parts service toy_chi_laws toy_laws sources toy_codec [] unbonding_tx staker
      covenant_2 (5 ∷ []) tx_bytes (omega arith, tt) refl (metrics, 0) covenant_2 0
      (write_request sent) (encode_to_string (2 ∷ [])) toy-Signed refl sent_fits refl response_fits
