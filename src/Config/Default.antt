-- ===== src/Config/Default.antt =====
-- config/config.go: the default configuration is one that `Parse` accepts and that its file can hold.
use covenant_signer.Prelude.{◌≡◌, refl, Bool, true, bytes_equal}
use covenant_signer.Prelude.Int.{pos, wrap_int64}
use covenant_signer.Go.Text.{GoString, str}
use covenant_signer.Go.Outcome.{ok}
use covenant_signer.Config
use covenant_signer.Config.{ParsedConfig, default_config}
use covenant_signer.Config.App
use covenant_signer.Config.Metrics
use covenant_signer.Config.Server
use covenant_signer.Config.Server.{seconds}
use covenant_signer.Config.Network
use covenant_signer.Config.Network.{ParsedBtcConfig, get_btc_network_params, regression_net_params}
use covenant_signer.Config.Template.RoundTrip.{IsPrintable}

pub default_config-IsPrintable : IsPrintable default_config
unfolding default_config str
default_config-IsPrintable = record {
  node = record { host = refl; user = refl; pass = refl; network = refl };
  signer = record { host = refl; user = refl; pass = refl; network = refl };
  server = refl;
  metrics = refl;
}

-- What the default settings are parsed into
abbrev default_node : ParsedBtcConfig
default_node = record {
  host = str "localhost:18556";
  user = str "user";
  pass = str "pass";
  network = regression_net_params;
}

abbrev pub default_parsed : ParsedConfig
default_parsed = record {
  btc_node_config = default_node;
  btc_signer_config = default_node;
  server_config = record {
    host = str "127.0.0.1";
    port = pos 9791;
    write_timeout = pos 15_000_000_000;
    read_timeout = pos 15_000_000_000;
    idle_timeout = pos 120_000_000_000;
    max_content_length = 8192;
  };
  metrics_config = record { host = str "127.0.0.1"; port = pos 2112 };
  signer_app_config = record { max_staking_transaction_height = 4294967295 };
}

pub parse-default_config :
    (is_ip : GoString → Bool)
    → is_ip (str "127.0.0.1") ≡ true
    → Config.parse is_ip default_config ≡ ok default_parsed
unfolding Config.parse App.parse Metrics.parse Server.parse seconds wrap_int64 default_config
    Network.parse get_btc_network_params bytes_equal str
parse-default_config is_ip local = rw local refl
