-- ===== src/Config.antt =====
-- config: the settings as read, checked and given defaults.
pub mod App
pub mod Network
pub mod Metrics
pub mod Server
pub mod Files
pub mod Template
pub mod Laws
pub mod Default
use covenant_signer.Prelude.{Bool}
use covenant_signer.Go.Text.{GoString}
use covenant_signer.Go.Outcome.{Outcome, ok, ◌>>=◌}
use App.{SignerAppConfig, ParsedSignerAppConfig, default_signer_app_config}
use Network.{BtcConfig, ParsedBtcConfig, default_btc_config}
use Metrics.{MetricsConfig, ParsedMetricsConfig, default_metrics_config}
use Server.{ServerConfig, ParsedServerConfig, default_server_config}

-- config/config.go
pub record Config : Type 0 where
  pub btc_node_config : BtcConfig
  pub btc_signer_config : BtcConfig
  pub server : ServerConfig
  pub metrics : MetricsConfig
  pub signer_app_config : SignerAppConfig

unfoldable pub default_config : Config
unfolding default_btc_config default_server_config default_metrics_config default_signer_app_config
default_config = record {
  btc_node_config = default_btc_config;
  btc_signer_config = default_btc_config;
  server = default_server_config;
  metrics = default_metrics_config;
  signer_app_config = default_signer_app_config;
}

pub record ParsedConfig : Type 0 where
  pub btc_node_config : ParsedBtcConfig
  pub btc_signer_config : ParsedBtcConfig
  pub server_config : ParsedServerConfig
  pub metrics_config : ParsedMetricsConfig
  pub signer_app_config : ParsedSignerAppConfig

-- `Config.Parse`: the first part that is refused decides the error.
unfoldable pub parse : (GoString → Bool) → Config → Outcome ParsedConfig
parse is_ip cfg = do
  btc_config ← Network.parse cfg.btc_node_config
  btc_signer_config ← Network.parse cfg.btc_signer_config
  server_config ← Server.parse cfg.server
  metrics_config ← Metrics.parse is_ip cfg.metrics
  signer_app_config ← App.parse cfg.signer_app_config
  ok (record {
    btc_node_config = btc_config;
    btc_signer_config = btc_signer_config;
    server_config = server_config;
    metrics_config = metrics_config;
    signer_app_config = signer_app_config;
  })
