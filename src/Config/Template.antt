-- ===== src/Config/Template.antt =====
-- config/config.go: `defaultConfigTemplate` and its execution. A field of text is put in as it is,
-- a number in decimal.
pub mod Reader
pub mod RoundTrip
use covenant_signer.Prelude.{ℕ, List, [], ◌∷◌, ◌++◌}
use covenant_signer.Prelude.Int.{ℤ}
use covenant_signer.Go.Text.{GoString, Bytes, str, decimal, decimal_ℤ}
use covenant_signer.Config.{Config}
use covenant_signer.Config.App.{SignerAppConfig}
use covenant_signer.Config.Network.{BtcConfig}
use covenant_signer.Config.Metrics.{MetricsConfig}
use covenant_signer.Config.Server.{ServerConfig}

-- Each line with the newline that ends it.
abbrev pub unlines : List GoString → GoString
unlines [] = []
unlines (line ∷ lines) = line ++ b'\n' ∷ unlines lines

-- `key = "{{ value }}"`
abbrev pub text_line : GoString → GoString → GoString
text_line prefix value = prefix ++ (value ++ b'"' ∷ [])

abbrev pub node_lines : BtcConfig → List GoString → List GoString
node_lines c rest =
    str "# This is a TOML config file."
    ∷ str "# For more information, see https://github.com/toml-lang/toml"
    ∷ []
    ∷ str "# There are two btc related configs"
    ∷ str "# 1. [btc-config] is config for btc full node which should have transaction indexing"
    ∷ str "# enabled. This node should be synced and can be open to the public."
    ∷ str "# 2. [btc-signer-config] is config for bitcoind daemon which should have only"
    ∷ str "# wallet functionality, it should run in separate network. This bitcoind instance"
    ∷ str "# will be used to sign psbt's"
    ∷ str "[btc-config]"
    ∷ str "# Btc node host"
    ∷ text_line (str "host = \"") c.host
    ∷ str "# Btc node user"
    ∷ text_line (str "user = \"") c.user
    ∷ str "# Btc node password"
    ∷ text_line (str "pass = \"") c.pass
    ∷ str "# Btc network (testnet3|mainnet|regtest|simnet|signet)"
    ∷ text_line (str "network = \"") c.network
    ∷ []
    ∷ rest

abbrev pub signer_lines : BtcConfig → List GoString → List GoString
signer_lines c rest =
    str "[btc-signer-config]"
    ∷ str "# Btc node host"
    ∷ text_line (str "host = \"") c.host
    ∷ str "# TODO: consider reading user/pass from command line"
    ∷ str "# Btc node user"
    ∷ text_line (str "user = \"") c.user
    ∷ str "# Btc node password"
    ∷ text_line (str "pass = \"") c.pass
    ∷ str "# Btc network (testnet3|mainnet|regtest|simnet|signet)"
    ∷ text_line (str "network = \"") c.network
    ∷ []
    ∷ rest

abbrev pub server_lines : ServerConfig → List GoString → List GoString
server_lines c rest =
    str "[server-config]"
    ∷ str "# The address to listen on"
    ∷ text_line (str "host = \"") c.host
    ∷ []
    ∷ str "# The port to listen on"
    ∷ (str "port = " ++ decimal_ℤ c.port)
    ∷ []
    ∷ str "# Read timeout in seconds"
    ∷ (str "read-timeout = " ++ decimal c.read_timeout)
    ∷ []
    ∷ str "# Write timeout in seconds"
    ∷ (str "write-timeout = " ++ decimal c.write_timeout)
    ∷ []
    ∷ str "# Idle timeout in seconds"
    ∷ (str "idle-timeout = " ++ decimal c.idle_timeout)
    ∷ []
    ∷ str "# Max content length in bytes"
    ∷ (str "max-content-length = " ++ decimal c.max_content_length)
    ∷ []
    ∷ rest

abbrev pub metrics_lines : MetricsConfig → List GoString → List GoString
metrics_lines c rest =
    str "[metrics]"
    ∷ str "# The prometheus server host"
    ∷ text_line (str "host = \"") c.host
    ∷ str "# The prometheus server port"
    ∷ (str "port = " ++ decimal_ℤ c.port)
    ∷ []
    ∷ rest

abbrev pub app_lines : SignerAppConfig → List GoString
app_lines c =
    str "[signer-app-config]"
    ∷ str "# The maximum height of staking transaction"
    ∷ str "# Max value is 4294967295"
    ∷ (str "max-staking-transaction-height = " ++ decimal_ℤ c.max_staking_transaction_height)
    ∷ []

unfoldable pub template_lines : Config → List GoString
template_lines c = node_lines c.btc_node_config (
    signer_lines c.btc_signer_config
      (server_lines c.server (metrics_lines c.metrics (app_lines c.signer_app_config))))

-- `configTemplate.Execute` into a buffer
unfoldable pub render : Config → Bytes
unfolding template_lines
render c = unlines (template_lines c)
