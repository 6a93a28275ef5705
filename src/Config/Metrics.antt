-- ===== src/Config/Metrics.antt =====
-- config/metrics.go. `net.ParseIP` is the test `is_ip`, true where it does not return nil.
use covenant_signer.Prelude.{◌++◌, Bool, ◌||◌, not, if◌then◌else◌}
use covenant_signer.Prelude.Int.{ℤ, pos, ltb_ℤ}
use covenant_signer.Go.Text.{GoString, str}
use covenant_signer.Go.Outcome.{Outcome, ok, err, new}

pub record MetricsConfig : Type 0 where
  pub host : GoString
  pub port : ℤ

pub record ParsedMetricsConfig : Type 0 where
  pub host : GoString
  pub port : ℤ

unfoldable pub parse : (GoString → Bool) → MetricsConfig → Outcome ParsedMetricsConfig
parse is_ip cfg =
    if ltb_ℤ cfg.port (pos 1024) || ltb_ℤ (pos 65535) cfg.port
    then err (new (str "metrics server port must be between 1024 and 65535 (inclusive)"))
    else if not (is_ip cfg.host)
    then err (new (str "invalid metrics server host: " ++ cfg.host))
    else ok (record { host = cfg.host; port = cfg.port })

unfoldable pub get_metrics_port : MetricsConfig → ℤ
get_metrics_port cfg = cfg.port

unfoldable pub default_metrics_config : MetricsConfig
default_metrics_config = record { host = str "127.0.0.1"; port = pos 2112 }
