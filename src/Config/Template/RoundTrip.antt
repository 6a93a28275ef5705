-- ===== src/Config/Template/RoundTrip.antt =====
-- The file that `writeConfigToFile` writes is read back as the configuration.
use covenant_signer.Prelude.{
  ℕ, suc, ◌≡◌, refl, ap, ◌∙◌, Bool, true, false, not, ◌&&◌, ◌||◌, some, List, [], ◌∷◌, ◌++◌, ◌==◌,
  arith, bytes_equal,
}
use covenant_signer.Prelude.Int.{ℤ, pos, negsuc}
use covenant_signer.Go.Text.{GoString, str, decimal, decimal_ℤ}
use covenant_signer.Go.Text.Decimal.{digits, decimal-digits, read_decimal-decimal, read_ℤ-decimal_ℤ}
use covenant_signer.Config.{Config}
use covenant_signer.Config.App.{SignerAppConfig}
use covenant_signer.Config.Network.{BtcConfig}
use covenant_signer.Config.Metrics.{MetricsConfig}
use covenant_signer.Config.Server.{ServerConfig}
use covenant_signer.Config.Template.{
  unlines, node_lines, signer_lines, server_lines, metrics_lines, app_lines, template_lines, render,
}
use covenant_signer.Config.Template.Reader.{
  split_lines, behind, section, setting, read_text, read_btc_config, read_server_config,
  read_metrics_config, read_app_config, read_lines, read_config,
}

-- A text with no quote, no backslash and no newline: the template puts it in as it is, and so these
-- would end it or the line.
abbrev pub plain : GoString → Bool
plain [] = true
plain (c ∷ s) = not (c == b'"') && (not (c == b'\\') && (not (c == b'\n') && plain s))

abbrev pub IsPlain : GoString → Type 0
IsPlain s = plain s ≡ true

read_text-plain : (s : GoString) → IsPlain s → read_text (s ++ b'"' ∷ []) ≡ some s
unfolding read_text
read_text-plain [] h = refl
read_text-plain (c ∷ []) h = ground arith
read_text-plain (c ∷ d ∷ s) h =
    let later : plain (d ∷ s) ≡ true = ground arith in
    let other : c == b'"' || c == b'\\' ≡ false = ground arith in
    rw (other, read_text-plain (d ∷ s) later)

-- A line with no newline
abbrev clean : GoString → Bool
clean [] = true
clean (c ∷ s) = not (c == b'\n') && clean s

abbrev all_clean : List GoString → Bool
all_clean [] = true
all_clean (line ∷ lines) = clean line && all_clean lines

split_line :
    (line rest : GoString)
    → clean line ≡ true
    → split_lines (line ++ b'\n' ∷ rest) ≡ line ∷ split_lines rest
unfolding split_lines
split_line [] rest h = refl
split_line (c ∷ s) rest h =
    let other : c == b'\n' ≡ false = ground arith in
    let later : clean s ≡ true = ground arith in rw (other, split_line s rest later)

split_lines-unlines :
    (lines : List GoString) → all_clean lines ≡ true → split_lines (unlines lines) ≡ lines
split_lines-unlines [] h = unfold split_lines in refl
split_lines-unlines (line ∷ lines) h =
    split_line line (unlines lines) (ground arith)
    ∙ ap (λ ls. line ∷ ls) (split_lines-unlines lines (ground arith))

clean-quoted : (s : GoString) → IsPlain s → clean (s ++ b'"' ∷ []) ≡ true
clean-quoted [] h = refl
clean-quoted (c ∷ s) h =
    let later : plain s ≡ true = ground arith in
    let other : c == b'\n' ≡ false = ground arith in rw (other, clean-quoted s later)

clean-digits : (s : GoString) → digits s ≡ true → clean s ≡ true
clean-digits [] h = refl
clean-digits (c ∷ s) h =
    let later : digits s ≡ true = ground arith in
    let other : c == b'\n' ≡ false = ground arith in rw (other, clean-digits s later)

clean-decimal : (n : ℕ) → clean (decimal n) ≡ true
clean-decimal n = clean-digits (decimal n) (decimal-digits n)

clean-decimal_ℤ : (z : ℤ) → clean (decimal_ℤ z) ≡ true
unfolding decimal_ℤ
clean-decimal_ℤ (pos n) = clean-decimal n
clean-decimal_ℤ (negsuc n) = clean-decimal (suc n)

pub record PlainNode (c : BtcConfig) : Type 0 where
  pub host : IsPlain c.host
  pub user : IsPlain c.user
  pub pass : IsPlain c.pass
  pub network : IsPlain c.network

module _ (c : BtcConfig) (p : PlainNode c) (rest : List GoString) where
  read_node_lines : read_btc_config (section (str "[btc-config]") (node_lines c rest)) ≡ some c
  unfolding read_btc_config section setting behind bytes_equal str
  read_node_lines = rw (
    read_text-plain c.host p.host,
    read_text-plain c.user p.user,
    read_text-plain c.pass p.pass,
    read_text-plain c.network p.network,
  )

  read_signer_lines :
      read_btc_config (section (str "[btc-signer-config]") (signer_lines c rest)) ≡ some c
  unfolding read_btc_config section setting behind bytes_equal str
  read_signer_lines = rw (
    read_text-plain c.host p.host,
    read_text-plain c.user p.user,
    read_text-plain c.pass p.pass,
    read_text-plain c.network p.network,
  )

  node_lines_clean : all_clean (node_lines c rest) ≡ all_clean rest
  unfolding str
  node_lines_clean = rw (
    clean-quoted c.host p.host,
    clean-quoted c.user p.user,
    clean-quoted c.pass p.pass,
    clean-quoted c.network p.network,
  )

  signer_lines_clean : all_clean (signer_lines c rest) ≡ all_clean rest
  unfolding str
  signer_lines_clean = rw (
    clean-quoted c.host p.host,
    clean-quoted c.user p.user,
    clean-quoted c.pass p.pass,
    clean-quoted c.network p.network,
  )

module _ (c : ServerConfig) (p : IsPlain c.host) (rest : List GoString) where
  read_server_lines :
      read_server_config (section (str "[server-config]") (server_lines c rest)) ≡ some c
  unfolding read_server_config section setting behind bytes_equal str
  read_server_lines = rw (
    read_text-plain c.host p,
    read_ℤ-decimal_ℤ c.port,
    read_decimal-decimal c.write_timeout,
    read_decimal-decimal c.read_timeout,
    read_decimal-decimal c.idle_timeout,
    read_decimal-decimal c.max_content_length,
  )

  server_lines_clean : all_clean (server_lines c rest) ≡ all_clean rest
  unfolding str
  server_lines_clean = rw (
    clean-quoted c.host p,
    clean-decimal_ℤ c.port,
    clean-decimal c.write_timeout,
    clean-decimal c.read_timeout,
    clean-decimal c.idle_timeout,
    clean-decimal c.max_content_length,
  )

module _ (c : MetricsConfig) (p : IsPlain c.host) (rest : List GoString) where
  read_metrics_lines :
      read_metrics_config (section (str "[metrics]") (metrics_lines c rest)) ≡ some c
  unfolding read_metrics_config section setting behind bytes_equal str
  read_metrics_lines = rw (read_text-plain c.host p, read_ℤ-decimal_ℤ c.port)

  metrics_lines_clean : all_clean (metrics_lines c rest) ≡ all_clean rest
  unfolding str
  metrics_lines_clean = rw (clean-quoted c.host p, clean-decimal_ℤ c.port)

module _ (c : SignerAppConfig) where
  read_app_lines : read_app_config (section (str "[signer-app-config]") (app_lines c)) ≡ some c
  unfolding read_app_config section setting behind bytes_equal str
  read_app_lines = rw (read_ℤ-decimal_ℤ c.max_staking_transaction_height)

  app_lines_clean : all_clean (app_lines c) ≡ true
  unfolding str
  app_lines_clean = rw (clean-decimal_ℤ c.max_staking_transaction_height)

-- No text of the settings has a quote, a backslash or a newline.
pub record IsPrintable (c : Config) : Type 0 where
  pub node : PlainNode c.btc_node_config
  pub signer : PlainNode c.btc_signer_config
  pub server : IsPlain c.server.host
  pub metrics : IsPlain c.metrics.host

module _ (c : Config) (p : IsPrintable c) where
  template_lines_clean : all_clean (template_lines c) ≡ true
  unfolding template_lines
  template_lines_clean =
      let app = app_lines c.signer_app_config in
      let metrics = metrics_lines c.metrics app in
      let server = server_lines c.server metrics in
      let signer = signer_lines c.btc_signer_config server in
      node_lines_clean c.btc_node_config p.node signer
      ∙ signer_lines_clean c.btc_signer_config p.signer server
      ∙ server_lines_clean c.server p.server metrics
      ∙ metrics_lines_clean c.metrics p.metrics app
      ∙ app_lines_clean c.signer_app_config

  -- A header is found behind the lines of the other sections.
  read_template_lines : read_lines (template_lines c) ≡ some c
  unfolding read_lines template_lines section bytes_equal str
  read_template_lines =
      let app = app_lines c.signer_app_config in
      let metrics = metrics_lines c.metrics app in
      let server = server_lines c.server metrics in
      let signer = signer_lines c.btc_signer_config server in
      rw (
        read_node_lines c.btc_node_config p.node signer,
        read_signer_lines c.btc_signer_config p.signer server,
        read_server_lines c.server p.server metrics,
        read_metrics_lines c.metrics p.metrics app,
        read_app_lines c.signer_app_config,
      )

  pub read_config-render : read_config (render c) ≡ some c
  unfolding read_config render
  read_config-render =
      ap read_lines (split_lines-unlines (template_lines c) template_lines_clean)
      ∙ read_template_lines
