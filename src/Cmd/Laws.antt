-- ===== src/Cmd/Laws.antt =====
-- What the service that `start` prepares does, and what `dump-cfg` leaves.
use covenant_signer.Prelude.{true, false, ◌≡◌, refl, ap, sym, ◌++◌, ◌∷◌}
use covenant_signer.Go.Text.{GoString, decimal_ℤ}
use covenant_signer.Go.Outcome.{ok, answer, ok-injective, or_err, or_err-eq-ok}
use covenant_signer.Go.Exec.{continue-eq-ok}
use covenant_signer.Btc.{Btc}
use covenant_signer.BtcClient.Connection.{ConnConfig, btc_config_to_conn_config, new_btc_client}
use covenant_signer.Config
use covenant_signer.Config.Network.{ParsedBtcConfig}
use covenant_signer.Config.{Config, ParsedConfig, default_config}
use covenant_signer.Config.Files.{get_config}
use covenant_signer.Observability.Metrics.{new_covenant_signer_metrics}
use covenant_signer.SignerApp.Assembly.{assembled}
use covenant_signer.SignerApp.PsbtSigner.{psbt_signer}
use covenant_signer.SignerApp.ParamsRetriever.{new_versioned_params_retriever}
use covenant_signer.SignerService.Handlers.{State}
use covenant_signer.SignerService.Router.{HttpServer}
use covenant_signer.SignerService.Server.{new}
use covenant_signer.Cmd.{config_path_key, Parts, Prepared, signer_app, prepare}

-- A connection by HTTP POST, without TLS, with the host and the credentials of the settings
abbrev pub connection : ParsedBtcConfig → ConnConfig
connection cfg = record {
  host = cfg.host;
  user = cfg.user;
  pass = cfg.pass;
  disable_tls = true;
  disable_connect_on_new = true;
  disable_auto_reconnect = false;
  http_post_mode = true;
}

module _ {btc : Btc} {W : Type 0} (parts : Parts btc W) where
  -- Where a prepared service comes from, and what it does.
  pub record Serves (w : W) (p : Prepared W parts.prometheus.Registry) (w' : W) : Type 0 where
    pub path : GoString
    pub has_path : parts.shell.get_string config_path_key ≡ answer path
    pub cfg : Config
    pub w₁ : W
    pub has_cfg : get_config parts.fs parts.viper path w ≡ (ok cfg, w₁)
    pub parsed : ParsedConfig
    pub parses : Config.parse parts.is_ip cfg ≡ ok parsed
    pub params : parts.networks.ParsedGlobalParams
    pub has_params :
        parts.networks.new_parsed_global_params_from_file parts.shell.global_param_path w₁
        ≡ (answer params, w')
    -- the node of the queries, and the wallet's
    pub full_node : parts.connector.Client
    pub connects : parts.connector.new_client (connection parsed.btc_node_config) ≡ answer full_node
    pub wallet : parts.connector.Client
    pub connects_wallet :
        parts.connector.new_client (connection parsed.btc_signer_config) ≡ answer wallet
    -- where the two servers listen
    pub addr :
        p.server.addr ≡ parsed.server_config.host ++ b':' ∷ decimal_ℤ parsed.server_config.port
    pub registers : new_covenant_signer_metrics parts.prometheus ≡ ok p.metrics
    pub metrics_addr : p.metrics_address ≡ cfg.metrics.host ++ b':' ∷ decimal_ℤ cfg.metrics.port
    -- the server is made over the application that has the nodes and the wallet in their places
    pub made :
        new parts.staking parts.json
          (assembled
            (parts.connector.rpc full_node)
            parts.networks
            params
            (psbt_signer parts.psbt parts.staking (parts.connector.rpc wallet))
            parsed.signer_app_config
            (parts.chain_params parsed.btc_node_config.network))
          parts.chi
          parts.instruments
          parsed
        ≡ ok p.server

  new_params-eq-ok :
      (path : GoString) (w w' : W) (g : parts.networks.ParsedGlobalParams)
      → new_versioned_params_retriever parts.networks path w ≡ (ok g, w')
      → parts.networks.new_parsed_global_params_from_file path w ≡ (answer g, w')
  unfolding new_versioned_params_retriever
  new_params-eq-ok path w w' g h =
      let given = or_err-eq-ok _ (ap (λ x. x.0) h) in λ i. (given i, (h i).1)

  server-addr :
      (g : parts.networks.ParsedGlobalParams) (a b : parts.connector.Client) (cfg : ParsedConfig)
      (server : HttpServer (State W))
      → new parts.staking parts.json (signer_app parts g a b cfg) parts.chi parts.instruments cfg
        ≡ ok server
      → server.addr ≡ cfg.server_config.host ++ b':' ∷ decimal_ℤ cfg.server_config.port
  unfolding new
  server-addr g a b cfg server h = ap (λ x. x.addr) (sym (ok-injective h))

  pub prepare-Serves :
      (w w' : W) (p : Prepared W parts.prometheus.Registry)
      → prepare parts w ≡ (ok p, w')
      → Serves w p w'
  unfolding prepare signer_app new_btc_client btc_config_to_conn_config
  prepare-Serves w w' p h =
      let (path, e₁, h₁) = continue-eq-ok (or_err (parts.shell.get_string config_path_key)) _ w h in
      let got = get_config parts.fs parts.viper path w in
      let (cfg, e₂, h₂) = continue-eq-ok got.0 _ got.1 h₁ in
      let (parsed, e₃, h₃) = continue-eq-ok (Config.parse parts.is_ip cfg) _ got.1 h₂ in
      let read =
        new_versioned_params_retriever parts.networks parts.shell.global_param_path got.1 in
      let (params, e₄, h₄) = continue-eq-ok read.0 _ read.1 h₃ in
      let node = parts.connector.new_client (connection parsed.btc_node_config) in
      let (full_node, e₅, h₅) = continue-eq-ok (or_err node) _ read.1 h₄ in
      let signer = parts.connector.new_client (connection parsed.btc_signer_config) in
      let (wallet, e₆, h₆) = continue-eq-ok (or_err signer) _ read.1 h₅ in
      let made =
        new parts.staking parts.json (signer_app parts params full_node wallet parsed) parts.chi
          parts.instruments parsed in
      let (metrics, e₇, h₇) =
        continue-eq-ok (new_covenant_signer_metrics parts.prometheus) _ read.1 h₆ in
      let (server, e₈, h₈) = continue-eq-ok made _ read.1 h₇ in
      let same = ok-injective (ap (λ x. x.0) h₈) in
      rw (← same) (record {
        path = path;
        has_path = or_err-eq-ok _ e₁;
        cfg = cfg;
        w₁ = got.1;
        has_cfg = λ i. (e₂ i, got.1);
        parsed = parsed;
        parses = e₃;
        params = params;
        has_params =
            new_params-eq-ok parts.shell.global_param_path got.1 w' params (λ i. (e₄ i, (h₈ i).1));
        full_node = full_node;
        connects = or_err-eq-ok node e₅;
        wallet = wallet;
        connects_wallet = or_err-eq-ok signer e₆;
        addr = server-addr params full_node wallet parsed server e₈;
        metrics_addr = refl;
        registers = e₇;
        made = e₈;
      })
