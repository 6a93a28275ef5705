-- ===== src/Tests/Parts.antt =====
-- The small parts of a service. The world is that of the small node.
use covenant_signer.Prelude.{
  ℕ, ◌≡◌, refl, subst, Bool, true, false, none, some, List, [], ◌∷◌, arith, bytes_equal,
  if◌then◌else◌, ◌&&◌,
}
use covenant_signer.Prelude.Int.{IsUint32, to_uint32}
use covenant_signer.Go.Text.{str}
use covenant_signer.Go.Outcome.{ok, answer, failure, first}
use covenant_signer.Btc.Rpc.{TxConfStatus, TxConfirmation}
use covenant_signer.Btc.Networks.{Networks, VersionedGlobalParams}
use covenant_signer.Config.Default.{default_parsed}
use covenant_signer.Observability.Registry.{Collector, Prometheus}
use covenant_signer.Observability.Registry.Laws.{is_apart}
use covenant_signer.SignerApp.Assembly.{assembled, IsInRange, SourceRanges}
use covenant_signer.SignerApp.PsbtSigner.{psbt_signer}
use covenant_signer.SignerApp.Signer.{SignerApp, sign_unbonding_transaction}
use covenant_signer.SignerApp.Signer.Checks.{
  check_request, check_inclusion_height, signing_request, confirmations, outputs_are_equal,
  is_covenant_member, check_covenant_member, check_confirmations, check_output_index,
  check_staking_time, check_staking_amount, unbonding_value, check_unbonding_output, unbonding_path,
  check_staker_signature, pub_key_to_address,
}
use covenant_signer.SignerApp.ChainInfo.{tx_by_hash, tx_info_of, best_block_height}
use covenant_signer.SignerApp.ParamsRetriever.{params_by_height, params_of, to_babylon_params}
use covenant_signer.SignerApp.PsbtSigner
use covenant_signer.BtcClient.Node
use covenant_signer.SignerService.Handlers.{State}
use covenant_signer.SignerService.Middlewares.{Instruments}
use covenant_signer.SignerService.Router.{Chi, ChiLaws}
use covenant_signer.Cmd.{Parts}
use covenant_signer.Tests.Chain.{staker, covenant_2, toy_btc, toy_staking}
use covenant_signer.Tests.Codec.{toy_json}
use covenant_signer.Tests.Nodes.{toy_rpc, toy_psbt}
use covenant_signer.Tests.Router.{router, router_laws, still}
use covenant_signer.Tests.Signing.{unbonding_tx, params, params-InRange}

abbrev pub S : Type 0
S = State ℕ

abbrev pub toy_chi : Chi S
toy_chi = router S

pub toy_chi_laws : ChiLaws toy_chi
toy_chi_laws = router_laws S

abbrev pub still_instruments : Instruments S
still_instruments = still S

abbrev versioned : VersionedGlobalParams toy_btc
versioned = record {
  covenant_pks = params.covenant_public_keys;
  covenant_quorum = params.covenant_quorum;
  tag = params.magic_bytes;
  unbonding_time = params.unbonding_time;
  unbonding_fee = params.unbonding_fee;
  max_staking_amount = params.max_staking_amount;
  min_staking_amount = params.min_staking_amount;
  max_staking_time = params.max_staking_time;
  min_staking_time = params.min_staking_time;
  confirmation_depth = params.confirmation_depth;
}

-- A registry refuses a collector that shares a name with one of its own.
abbrev pub all_apart : Collector → List Collector → Bool
all_apart c [] = true
all_apart c (d ∷ ds) = is_apart c d && all_apart c ds

abbrev pub toy_prometheus : Prometheus
toy_prometheus = record {
  Registry = List Collector;
  new_registry = [];
  register =
      λ c reg. if all_apart c reg then answer (c ∷ reg) else failure (str "duplicate collector");
}

abbrev pub toy_networks : Networks toy_btc ℕ
toy_networks = record {
  ParsedGlobalParams = Unit {0};
  new_parsed_global_params_from_file = λ path w. (answer tt, w);
  versioned_params_by_height = λ parsed height. some versioned;
}

-- Files are not read: the settings are the default ones.
abbrev pub parts : Parts toy_btc ℕ
parts = record {
  shell = record {
    get_string = λ key. answer [];
    global_param_path = [];
    print = λ text w. w;
    app_data_dir = λ name roaming. [];
    join = λ dir name. name;
  };
  fs = record {
    is_not_exist = λ path w. (false, w);
    mkdir_all = λ dir mode w. (answer tt, w);
    write_file = λ path b mode w. (answer tt, w);
    split = λ path. ([], path);
  };
  viper = record {
    Settings = Unit {0};
    read_in_config = λ dir name type w. (answer tt, w);
    unmarshal = λ settings cfg. answer cfg;
  };
  is_ip = λ text. true;
  chain_params = λ network. 0;
  networks = toy_networks;
  connector = record { Client = Unit {0}; new_client = λ cfg. answer tt; rpc = λ client. toy_rpc };
  staking = toy_staking;
  psbt = toy_psbt;
  json = toy_json;
  chi = toy_chi;
  instruments = still_instruments;
  prometheus = toy_prometheus;
  listen_metrics = λ server w. (none, w);
  go = λ endpoint w. w;
  listening = record {
    listen_and_serve = λ server s. (answer tt, s);
    shutdown = λ server s. (answer tt, s);
  };
}

confirmed_height :
    (conf : TxConfirmation toy_btc) (status : TxConfStatus) (w w' : ℕ)
    → toy_rpc.conf_details_from_tx_index 42 [] w ≡ (answer (some conf, status), w')
    → 100 ≡ conf.block_height
confirmed_height conf status w w' h = cc

version_lem : (v : VersionedGlobalParams toy_btc) → some versioned ≡ some v → versioned ≡ v
version_lem v h = cc

versioned-IsInRange : IsInRange versioned
versioned-IsInRange = record {
  depth = params-InRange.depth;
  fee = params-InRange.fee;
  fee_nonneg = params-InRange.fee_nonneg;
  max_amount = params-InRange.max_amount;
  min_nonneg = params-InRange.min_nonneg;
}

pub sources : SourceRanges toy_rpc toy_networks tt
sources = record {
  height = λ request text w w' conf status h.
      subst IsUint32 (confirmed_height conf status w w' h) (omega arith);
  params = λ height v h. subst IsInRange (version_lem v h) versioned-IsInRange;
}

abbrev pub signer : SignerApp toy_btc ℕ
signer =
    assembled toy_rpc toy_networks tt (psbt_signer toy_psbt toy_staking toy_rpc)
      default_parsed.signer_app_config 0

pub signer_run :
    sign_unbonding_transaction toy_staking signer (5 ∷ []) unbonding_tx staker covenant_2 0
    ≡ (ok covenant_2, 0)
unfolding sign_unbonding_transaction check_request first check_inclusion_height signing_request
    check_covenant_member check_confirmations confirmations check_output_index check_staking_time
    check_staking_amount unbonding_value check_unbonding_output unbonding_path
    check_staker_signature pub_key_to_address outputs_are_equal is_covenant_member bytes_equal
    tx_by_hash tx_info_of best_block_height Node.best_block_height Node.tx_details params_by_height
    PsbtSigner.raw_signature PsbtSigner.unsigned_packet Node.sign_psbt PsbtSigner.packet_signature
    to_uint32 params_of to_babylon_params
signer_run = refl
