-- ===== src/Config/Server.antt =====
-- config/server.go
use covenant_signer.Prelude.{ℕ, ◌*◌}
use covenant_signer.Prelude.Int.{ℤ, pos, wrap_int64}
use covenant_signer.Go.Text.{GoString, str}
use covenant_signer.Go.Outcome.{Outcome, ok}

-- The timeouts and the length are `uint32`, the timeouts in seconds.
pub record ServerConfig : Type 0 where
  pub host : GoString
  pub port : ℤ
  pub write_timeout : ℕ
  pub read_timeout : ℕ
  pub idle_timeout : ℕ
  pub max_content_length : ℕ

-- A `time.Duration` is an `int64` of nanoseconds.
pub record ParsedServerConfig : Type 0 where
  pub host : GoString
  pub port : ℤ
  pub write_timeout : ℤ
  pub read_timeout : ℤ
  pub idle_timeout : ℤ
  pub max_content_length : ℕ

-- `time.Duration(n) * time.Second`
unfoldable pub seconds : ℕ → ℤ
unfolding wrap_int64
seconds n = wrap_int64 (pos (n * 1_000_000_000))

unfoldable pub parse : ServerConfig → Outcome ParsedServerConfig
unfolding seconds
parse c = ok (record {
  host = c.host;
  port = c.port;
  write_timeout = seconds c.write_timeout;
  read_timeout = seconds c.read_timeout;
  idle_timeout = seconds c.idle_timeout;
  max_content_length = c.max_content_length;
})

unfoldable pub default_server_config : ServerConfig
default_server_config = record {
  host = str "127.0.0.1";
  port = pos 9791;
  write_timeout = 15;
  read_timeout = 15;
  idle_timeout = 120;
  max_content_length = 8192;
}
