-- ===== src/Config/Template/Reader.antt =====
-- A reader of settings files in the part of TOML that the template writes: lines that are empty,
-- comments, `[section]`, `key = number` and `key = "text"` with no escape.
use covenant_signer.Prelude.{
  ℕ, Bool, false, ◌||◌, Option, none, some, List, [], ◌∷◌, ◌==◌, if◌then◌else◌, bytes_equal,
}
use covenant_signer.Prelude.Int.{ℤ}
use covenant_signer.Go.Text.{GoString, Bytes, str}
use covenant_signer.Go.Text.Decimal.{read_decimal, read_ℤ}
use covenant_signer.Config.{Config}
use covenant_signer.Config.App.{SignerAppConfig}
use covenant_signer.Config.Network.{BtcConfig}
use covenant_signer.Config.Metrics.{MetricsConfig}
use covenant_signer.Config.Server.{ServerConfig}

-- The lines of a text, each ended by a newline; `line` is what was read of the first.
abbrev pub push_line : ℕ → List GoString → List GoString
push_line c [] = (c ∷ []) ∷ []
push_line c (line ∷ lines) = (c ∷ line) ∷ lines

unfoldable pub split_lines : GoString → List GoString
split_lines [] = []
split_lines (c ∷ s) = let rest = split_lines s in if c == b'\n' then [] ∷ rest else push_line c rest

-- What stands behind a prefix
unfoldable pub behind : GoString → GoString → Option GoString
behind [] s = some s
behind (p ∷ prefix) [] = none
behind (p ∷ prefix) (c ∷ s) = let rest = behind prefix s in if p == c then rest else none

abbrev pub is_section : GoString → Bool
is_section [] = false
is_section (c ∷ s) = c == b'['

-- The lines behind the header of a section
unfoldable pub section : GoString → List GoString → List GoString
unfolding bytes_equal
section header [] = []
section header (line ∷ lines) =
    let rest = section header lines in if bytes_equal header line then lines else rest

abbrev pub first_some : Option GoString → Option GoString → Option GoString
first_some (some a) other = some a
first_some none other = other

-- What stands behind the prefix of a line, up to the next section
unfoldable pub setting : GoString → List GoString → Option GoString
unfolding behind
setting prefix [] = none
setting prefix (line ∷ lines) =
    let rest = setting prefix lines in
    if is_section line then none else first_some (behind prefix line) rest

-- A text up to its closing quote, which ends the line. An escape is refused.
unfoldable pub read_text : GoString → Option GoString
read_text [] = none
read_text (c ∷ []) = if c == b'"' then some [] else none
read_text (c ∷ d ∷ s) =
    let rest = read_text (d ∷ s) in
    if c == b'"' || c == b'\\'
    then none
    else elim rest [ none ↦ none | some text ↦ some (c ∷ text) ]

infixl 5 ◌>>=◌
abbrev ◌>>=◌ : {A B : Type 0} → Option A → (A → Option B) → Option B
none >>= f = none
some a >>= f = f a

abbrev text_setting : GoString → List GoString → Option GoString
text_setting prefix lines = do text ← setting prefix lines; read_text text

abbrev number_setting : GoString → List GoString → Option ℕ
number_setting prefix lines = do text ← setting prefix lines; read_decimal text

abbrev integer_setting : GoString → List GoString → Option ℤ
integer_setting prefix lines = do text ← setting prefix lines; read_ℤ text

unfoldable pub read_btc_config : List GoString → Option BtcConfig
unfolding setting read_text
read_btc_config lines = do
  host ← text_setting (str "host = \"") lines
  user ← text_setting (str "user = \"") lines
  pass ← text_setting (str "pass = \"") lines
  network ← text_setting (str "network = \"") lines
  some (record { host = host; user = user; pass = pass; network = network })

unfoldable pub read_server_config : List GoString → Option ServerConfig
unfolding setting read_text
read_server_config lines = do
  host ← text_setting (str "host = \"") lines
  port ← integer_setting (str "port = ") lines
  write_timeout ← number_setting (str "write-timeout = ") lines
  read_timeout ← number_setting (str "read-timeout = ") lines
  idle_timeout ← number_setting (str "idle-timeout = ") lines
  max_content_length ← number_setting (str "max-content-length = ") lines
  some (record {
    host = host;
    port = port;
    write_timeout = write_timeout;
    read_timeout = read_timeout;
    idle_timeout = idle_timeout;
    max_content_length = max_content_length;
  })

unfoldable pub read_metrics_config : List GoString → Option MetricsConfig
unfolding setting read_text
read_metrics_config lines = do
  host ← text_setting (str "host = \"") lines
  port ← integer_setting (str "port = ") lines
  some (record { host = host; port = port })

unfoldable pub read_app_config : List GoString → Option SignerAppConfig
unfolding setting
read_app_config lines = do
  height ← integer_setting (str "max-staking-transaction-height = ") lines
  some (record { max_staking_transaction_height = height })

unfoldable pub read_lines : List GoString → Option Config
unfolding section read_btc_config read_server_config read_metrics_config read_app_config
read_lines lines = do
  node ← read_btc_config (section (str "[btc-config]") lines)
  signer ← read_btc_config (section (str "[btc-signer-config]") lines)
  server ← read_server_config (section (str "[server-config]") lines)
  metrics ← read_metrics_config (section (str "[metrics]") lines)
  app ← read_app_config (section (str "[signer-app-config]") lines)
  some (record {
    btc_node_config = node;
    btc_signer_config = signer;
    server = server;
    metrics = metrics;
    signer_app_config = app;
  })

unfoldable pub read_config : Bytes → Option Config
unfolding split_lines read_lines
read_config b = read_lines (split_lines b)
