-- ===== src/Config/Laws.antt =====
-- What the parsers of the settings accept, and what they make of it.
use covenant_signer.Prelude.{
  ℕ, subst, bytes_equal, bytes_equal_iff, if◌then◌else◌, ◌*◌, ◌≡◌, refl, ap, sym, ◌∙◌, ◌⊎◌, inl,
  inr, ◌↔◌, Bool, true, false, ◌&&◌, not, [], ◌∷◌, ◌++◌, arith, ◌==◌, Bool-cases,
}
use covenant_signer.Prelude.Int.{pos, ◌≤ℤ◌, IsUint32, wrap_int64}
use covenant_signer.Go.Text.{GoString, str}
use covenant_signer.Go.Outcome.{Outcome, ok, ok-injective, bind-eq-ok}
use covenant_signer.Config
use covenant_signer.Config.{Config, ParsedConfig}
use covenant_signer.Config.Network
use covenant_signer.Config.Network.{
  NetworkParams, test_net3_params, main_net_params, regression_net_params, sim_net_params,
  sig_net_params, BtcConfig, ParsedBtcConfig, get_btc_network_params,
}
use covenant_signer.Config.Server
use covenant_signer.Config.App
use covenant_signer.Config.App.{SignerAppConfig, ParsedSignerAppConfig, max_uint32}
use covenant_signer.Config.Metrics
use covenant_signer.Config.Metrics.{MetricsConfig, ParsedMetricsConfig}
use covenant_signer.Config.Server.{ServerConfig, seconds}
use mathlib.Core.List.{append-nil}
use covenant_signer.Config.Files.{has_slash, has_extension, file_name_without_extension}

-- The height limit is accepted exactly when it is a `uint32`, and is then kept as it is.
pub app_parse_iff :
    (c : SignerAppConfig) (p : ParsedSignerAppConfig)
    → (App.parse c ≡ ok p) ↔ (
        (c.max_staking_transaction_height ≡ pos p.max_staking_transaction_height)
        × IsUint32 p.max_staking_transaction_height)
unfolding App.parse
app_parse_iff c p = ground arith

-- The metrics settings are accepted exactly with a port from 1024 to 65535 and a host that is an
-- IP address, and are then kept as they are.
pub metrics_parse_iff :
    (is_ip : GoString → Bool) (cfg : MetricsConfig) (p : ParsedMetricsConfig)
    → (Metrics.parse is_ip cfg ≡ ok p) ↔ (
        (pos 1024 ≤ℤ cfg.port)
        × (cfg.port ≤ℤ pos 65535)
        × (is_ip cfg.host ≡ true)
        × (p ≡ record { host = cfg.host; port = cfg.port }))
unfolding Metrics.parse
metrics_parse_iff is_ip cfg p = ground arith

-- A timeout of a `uint32` of seconds is that number of nanoseconds: the duration does not
-- overflow.
pub seconds_exact : (n : ℕ) → IsUint32 n → seconds n ≡ pos (n * 1_000_000_000)
unfolding seconds wrap_int64
seconds_exact n h = ground arith

-- What `filepath.Ext` takes off: nothing, or a last dot with what is behind it, in which there is
-- neither a slash nor another dot of an extension.
abbrev pub IsExtension : GoString → GoString → Type 0
IsExtension s ext =
    ((ext ≡ []) × (has_extension s ≡ false))
    ⊎ ((rest : GoString) × (ext ≡ b'.' ∷ rest)
        × (has_slash rest ≡ false)
        × (has_extension rest ≡ false))

IsExtension-cons :
    (c : ℕ) (s ext : GoString)
    → has_extension s ≡ true
    → IsExtension s ext
    → IsExtension (c ∷ s) ext
IsExtension-cons c s ext h (inl (e, none)) = cc
IsExtension-cons c s ext h (inr behind) = inr behind

dot_lem : (c : ℕ) (s : GoString) → c == b'.' && not (has_slash s) ≡ true → c ∷ s ≡ b'.' ∷ s
dot_lem c s h = ground arith

dot_slash : (c : ℕ) (s : GoString) → c == b'.' && not (has_slash s) ≡ true → has_slash s ≡ false
dot_slash c s h = ground arith

-- The name without its extension, with the extension behind it, is the name. The extension is
-- nothing for a name that has none, and otherwise the last dot with what is behind it, in which
-- there is neither a slash nor another extension.
pub file_name_without_extension_lem :
    (s : GoString)
    → (ext : GoString) × (s ≡ file_name_without_extension s ++ ext) × IsExtension s ext
unfolding file_name_without_extension has_extension
file_name_without_extension_lem [] = ([], refl, inl (refl, refl))
file_name_without_extension_lem (c ∷ s) = elim (Bool-cases (has_extension s)) [
  | inl inner ↦
      let (ext, split, is) = file_name_without_extension_lem s in
      (ext, rw inner (ap (λ t. c ∷ t) split), IsExtension-cons c s ext inner is)
  | inr outer ↦ elim (Bool-cases (c == b'.' && not (has_slash s))) [
    | inl dot ↦ rw (outer, dot) (c ∷ s, refl, inr (s, dot_lem c s dot, dot_slash c s dot, outer))
    | inr other ↦ rw (outer, other) ([], sym (append-nil _), inl (refl, refl))
  ]
]

-- The names of the networks
pub data Names : GoString → NetworkParams → Type 0 where
  testnet3 : Names (str "testnet3") test_net3_params
  mainnet : Names (str "mainnet") main_net_params
  regtest : Names (str "regtest") regression_net_params
  simnet : Names (str "simnet") sim_net_params
  signet : Names (str "signet") sig_net_params

-- What each part of the settings becomes, and what it must satisfy
pub record IsParsed (is_ip : GoString → Bool) (c : Config) (p : ParsedConfig) : Type 0 where
  pub node :
      (n : NetworkParams) × Names c.btc_node_config.network n
      × (p.btc_node_config ≡ record {
        host = c.btc_node_config.host;
        user = c.btc_node_config.user;
        pass = c.btc_node_config.pass;
        network = n;
      })
  pub signer :
      (n : NetworkParams) × Names c.btc_signer_config.network n
      × (p.btc_signer_config ≡ record {
        host = c.btc_signer_config.host;
        user = c.btc_signer_config.user;
        pass = c.btc_signer_config.pass;
        network = n;
      })
  pub server : p.server_config ≡ record {
    host = c.server.host;
    port = c.server.port;
    write_timeout = pos (c.server.write_timeout * 1_000_000_000);
    read_timeout = pos (c.server.read_timeout * 1_000_000_000);
    idle_timeout = pos (c.server.idle_timeout * 1_000_000_000);
    max_content_length = c.server.max_content_length;
  }
  pub metrics :
      (pos 1024 ≤ℤ c.metrics.port)
      × (c.metrics.port ≤ℤ pos 65535)
      × (is_ip c.metrics.host ≡ true)
      × (p.metrics_config ≡ record { host = c.metrics.host; port = c.metrics.port })
  pub height :
      (c.signer_app_config.max_staking_transaction_height
        ≡ pos p.signer_app_config.max_staking_transaction_height)
      × IsUint32 p.signer_app_config.max_staking_transaction_height

Names-get_btc_network_params :
    (name : GoString) (n : NetworkParams) → Names name n → get_btc_network_params name ≡ ok n
unfolding get_btc_network_params bytes_equal str
Names-get_btc_network_params _ _ testnet3 = refl
Names-get_btc_network_params _ _ mainnet = refl
Names-get_btc_network_params _ _ regtest = refl
Names-get_btc_network_params _ _ simnet = refl
Names-get_btc_network_params _ _ signet = refl

-- One test of the chain: the name is the text, or a later one.
test-Names :
    (name text : GoString) (n m : NetworkParams) (later : Outcome NetworkParams)
    → Names text n
    → (later ≡ ok m → Names name m)
    → (if bytes_equal name text then ok n else later) ≡ ok m
    → Names name m
test-Names name text n m later names rest h = elim (Bool-cases (bytes_equal name text)) [
  | inl same ↦
      subst (λ t. Names t m) (sym ((bytes_equal_iff name text).0 same))
        (subst (Names text) (ok-injective (rw same at h)) names)
  | inr other ↦ rest (rw other at h)
]

get_btc_network_params-Names :
    (name : GoString) (n : NetworkParams) → get_btc_network_params name ≡ ok n → Names name n
unfolding get_btc_network_params
get_btc_network_params-Names name n h =
    test-Names name (str "testnet3") test_net3_params n _ testnet3
      (test-Names name (str "mainnet") main_net_params n _ mainnet (
        test-Names name (str "regtest") regression_net_params n _ regtest (
          test-Names name (str "simnet") sim_net_params n _ simnet
            (test-Names name (str "signet") sig_net_params n _ signet (λ wrong. cc)))))
      h

network_parse_iff :
    (c : BtcConfig) (p : ParsedBtcConfig)
    → (Network.parse c ≡ ok p) ↔ (
        (n : NetworkParams) × Names c.network n
        × (p ≡ record { host = c.host; user = c.user; pass = c.pass; network = n }))
unfolding Network.parse
network_parse_iff c p = (
  λ h.
      let (n, known, same) = bind-eq-ok (get_btc_network_params c.network) _ h in
      (n, get_btc_network_params-Names c.network n known, sym (ok-injective same)),
  λ (n, names, same). rw (Names-get_btc_network_params c.network n names, same),
)

-- The timeouts are `uint32`.
pub record InRange (c : ServerConfig) : Type 0 where
  pub write_timeout : IsUint32 c.write_timeout
  pub read_timeout : IsUint32 c.read_timeout
  pub idle_timeout : IsUint32 c.idle_timeout

server_parse_lem :
    (c : ServerConfig)
    → InRange c
    → Server.parse c
      ≡ ok (record {
        host = c.host;
        port = c.port;
        write_timeout = pos (c.write_timeout * 1_000_000_000);
        read_timeout = pos (c.read_timeout * 1_000_000_000);
        idle_timeout = pos (c.idle_timeout * 1_000_000_000);
        max_content_length = c.max_content_length;
      })
unfolding Server.parse
server_parse_lem c r = rw (
  seconds_exact c.write_timeout r.write_timeout,
  seconds_exact c.read_timeout r.read_timeout,
  seconds_exact c.idle_timeout r.idle_timeout,
)

-- With timeouts that are `uint32`, a configuration is parsed exactly if each of the two networks
-- has one of the names testnet3, mainnet, regtest, simnet and signet, the metrics' port is from
-- 1024 to 65535 and its host an IP address, and the height limit is a `uint32`; the result has
-- the parameters of these networks and the settings as they are, with the timeouts in
-- nanoseconds.
pub config_parse_iff :
    (is_ip : GoString → Bool) (c : Config) (p : ParsedConfig)
    → InRange c.server
    → (Config.parse is_ip c ≡ ok p) ↔ IsParsed is_ip c p
unfolding Config.parse
config_parse_iff is_ip c p r = (
  λ h.
      let (node, e₁, h₁) = bind-eq-ok (Network.parse c.btc_node_config) _ h in
      let (signer, e₂, h₂) = bind-eq-ok (Network.parse c.btc_signer_config) _ h₁ in
      let (server, e₃, h₃) = bind-eq-ok (Server.parse c.server) _ h₂ in
      let (metrics, e₄, h₄) = bind-eq-ok (Metrics.parse is_ip c.metrics) _ h₃ in
      let (app, e₅, h₅) = bind-eq-ok (App.parse c.signer_app_config) _ h₄ in
      let same = ok-injective h₅ in
      rw (← same) (record {
        node = (network_parse_iff c.btc_node_config node).0 e₁;
        signer = (network_parse_iff c.btc_signer_config signer).0 e₂;
        server = sym (ok-injective (sym (server_parse_lem c.server r) ∙ e₃));
        metrics = (metrics_parse_iff is_ip c.metrics metrics).0 e₄;
        height = (app_parse_iff c.signer_app_config app).0 e₅;
      }),
  λ i.
      rw
        (
          (network_parse_iff c.btc_node_config p.btc_node_config).1 i.node,
          (network_parse_iff c.btc_signer_config p.btc_signer_config).1 i.signer,
          server_parse_lem c.server r,
          (metrics_parse_iff is_ip c.metrics p.metrics_config).1 i.metrics,
          (app_parse_iff c.signer_app_config p.signer_app_config).1 i.height,
        )
        (λ j. ok (record p { server_config = sym i.server j })),
)
