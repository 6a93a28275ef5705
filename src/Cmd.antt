-- ===== src/Cmd.antt =====
-- cmd: the commands, over cobra's flags.
pub mod Laws
pub mod Root
pub mod Dump
pub mod Service
pub mod Client
pub mod Delivery
use covenant_signer.Prelude.{ℕ, Bool, Option, false, List, [], ◌++◌, ◌∷◌}
use covenant_signer.Go.Text.{GoString, str, decimal_ℤ}
use covenant_signer.Go.Outcome.{Outcome, Reply, ok, or_err}
use covenant_signer.Go.Exec.{Exec, lift, ◌>>=◌, ◌>>◌}
use covenant_signer.Btc.{Btc, Staking}
use covenant_signer.Btc.Rpc.{Psbt}
use covenant_signer.Btc.Networks.{Networks}
use covenant_signer.BtcClient.Connection.{Connector, new_btc_client}
use covenant_signer.Config
use covenant_signer.Config.{Config, ParsedConfig, default_config}
use covenant_signer.Config.Files.{FileSystem, Viper, get_config, write_config_to_file}
use covenant_signer.Config.Network.{NetworkParams}
use covenant_signer.Observability.Endpoint
use covenant_signer.Observability.Endpoint.{MetricsServer, ListenError, Ended}
use covenant_signer.Observability.Metrics.{CovenantSignerMetrics, new_covenant_signer_metrics}
use covenant_signer.Observability.Registry.{Prometheus}
use covenant_signer.SignerApp.ChainInfo.{bitcoind_chain_info}
use covenant_signer.SignerApp.ParamsRetriever.{
  new_versioned_params_retriever, versioned_params_retriever,
}
use covenant_signer.SignerApp.PsbtSigner.{psbt_signer}
use covenant_signer.SignerApp.Signer.{SignerApp}
use covenant_signer.SignerService.Handlers.{State}
use covenant_signer.SignerService.Http.{Json}
use covenant_signer.SignerService.Middlewares.{Instruments}
use covenant_signer.SignerService.Router.{Chi, HttpServer, Listening}
use covenant_signer.SignerService.Server.{new, start}

-- What the commands take of cobra, os and btcutil
pub record Shell (W : Type 0) : Type 0 where
  -- `cmd.Flags().GetString`, and the variable that the flag of the parameters' file is bound to
  pub get_string : GoString → Reply GoString
  pub global_param_path : GoString
  -- `fmt.Printf`
  pub print : GoString → W → W
  -- `btcutil.AppDataDir` and `filepath.Join`
  pub app_data_dir : GoString → Bool → GoString
  pub join : GoString → GoString → GoString

-- root.go
unfoldable pub config_path_key : GoString
config_path_key = str "config"

unfoldable pub global_param_key : GoString
global_param_key = str "params"

-- A flag whose value is a text, of `cobra`
pub record Flag : Type 0 where
  pub name : GoString
  pub default : GoString
  pub usage : GoString

module _ {W : Type 0} (shell : Shell W) where
  unfoldable pub default_config_dir : GoString
  default_config_dir = shell.app_data_dir (str "signer") false

  unfoldable pub default_config_path : GoString
  unfolding default_config_dir
  default_config_path = shell.join default_config_dir (str "config.toml")

  unfoldable pub default_global_params_path : GoString
  unfolding default_config_dir
  default_global_params_path = shell.join default_config_dir (str "global-params.json")

  -- The flags that every command has, with their defaults
  unfoldable pub persistent_flags : List Flag
  unfolding config_path_key global_param_key default_config_path default_global_params_path
  persistent_flags =
      record {
        name = config_path_key;
        default = default_config_path;
        usage = str "path to the configuration file";
      }
      ∷ record {
        name = global_param_key;
        default = default_global_params_path;
        usage = str "path to the global params file";
      }
      ∷ []

  -- dumpDefaultCfgCmd.go
  unfoldable pub dump_cfg : FileSystem W → Exec W (Unit {0})
  dump_cfg fs = do
    path ← lift (or_err (shell.get_string config_path_key))
    write_config_to_file fs path default_config
    λ w.
        (ok tt, shell.print (str "Default configuration file dumped to: " ++ (path ++ str " \n")) w)

-- What the service is built from
pub record Parts (btc : Btc) (W : Type 0) : Type 1 where
  pub shell : Shell W
  pub fs : FileSystem W
  pub viper : Viper W
  -- `net.ParseIP`, and the networks of chaincfg
  pub is_ip : GoString → Bool
  pub chain_params : NetworkParams → btc.Network
  pub networks : Networks btc W
  pub connector : Connector btc W
  pub staking : Staking btc
  pub psbt : Psbt btc
  pub json : Json
  pub chi : Chi (State W)
  pub instruments : Instruments (State W)
  pub prometheus : Prometheus
  -- `ListenAndServe` of the endpoint, and a goroutine: the endpoint runs beside the server
  pub listen_metrics : MetricsServer prometheus.Registry → W → Option ListenError × W
  pub go : Exec W Ended → W → W
  pub listening : Listening (State W)

-- signerCmd.go, up to the start of the two servers
pub record Prepared (W Registry : Type 0) : Type 0 where
  pub server : HttpServer (State W)
  pub metrics_address : GoString
  pub metrics : Registry × CovenantSignerMetrics

module _ {btc : Btc} {W : Type 0} (parts : Parts btc W) where
  unfoldable pub signer_app :
      parts.networks.ParsedGlobalParams
      → parts.connector.Client
      → parts.connector.Client
      → ParsedConfig
      → SignerApp btc W
  signer_app parsed_global_params full_node_client signer_client parsed_config = record {
    s = psbt_signer parts.psbt parts.staking (parts.connector.rpc signer_client);
    r = bitcoind_chain_info (parts.connector.rpc full_node_client);
    p = versioned_params_retriever parts.networks parsed_global_params;
    cfg = parsed_config.signer_app_config;
    net = parts.chain_params parsed_config.btc_node_config.network;
  }

  unfoldable pub prepare : Exec W (Prepared W parts.prometheus.Registry)
  unfolding signer_app new_covenant_signer_metrics
  prepare = do
    config_path ← lift (or_err (parts.shell.get_string config_path_key))
    cfg ← get_config parts.fs parts.viper config_path
    parsed_config ← lift (Config.parse parts.is_ip cfg)
    parsed_global_params ←
        new_versioned_params_retriever parts.networks parts.shell.global_param_path
    full_node_client ← lift (new_btc_client parts.connector parsed_config.btc_node_config)
    signer_client ← lift (new_btc_client parts.connector parsed_config.btc_signer_config)
    metrics ← lift (new_covenant_signer_metrics parts.prometheus)
    server ← lift (
        new parts.staking parts.json
          (signer_app parsed_global_params full_node_client signer_client parsed_config) parts.chi
          parts.instruments parsed_config)
    lift (
        ok (record {
          server = server;
          metrics = metrics;
          metrics_address = cfg.metrics.host ++ b':' ∷ decimal_ℤ cfg.metrics.port;
        }))

  -- `m.Start` and `srv.Start`. The counters are the server's while it runs.
  unfoldable pub serve_prepared : Prepared W parts.prometheus.Registry → Exec W (Unit {0})
  unfolding Endpoint.start
  serve_prepared p w =
      let endpoint =
        Endpoint.start parts.prometheus parts.listen_metrics p.metrics_address p.metrics.0 in
      let (r, (m, w₁)) = start parts.listening p.server (p.metrics.1, parts.go endpoint w) in
      (r, w₁)

  unfoldable pub run_signer : Exec W (Unit {0})
  unfolding prepare serve_prepared
  run_signer = do prepared ← prepare; serve_prepared prepared
