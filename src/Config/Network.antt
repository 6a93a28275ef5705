-- ===== src/Config/Network.antt =====
-- config/btc.go
use covenant_signer.Prelude.{◌++◌, if◌then◌else◌, bytes_equal}
use covenant_signer.Go.Text.{GoString, str}
use covenant_signer.Go.Outcome.{Outcome, ok, err, new, ◌>>=◌}

pub record BtcConfig : Type 0 where
  pub host : GoString
  pub user : GoString
  pub pass : GoString
  pub network : GoString

-- The parameters of chaincfg that a name can stand for
pub data NetworkParams : Type 0 where
  test_net3_params main_net_params regression_net_params sim_net_params : NetworkParams
  sig_net_params : NetworkParams

pub record ParsedBtcConfig : Type 0 where
  pub host : GoString
  pub user : GoString
  pub pass : GoString
  pub network : NetworkParams

unfoldable pub default_btc_config : BtcConfig
default_btc_config = record {
  host = str "localhost:18556";
  user = str "user";
  pass = str "pass";
  network = str "regtest";
}

-- `getBtcNetworkParams`
unfoldable pub get_btc_network_params : GoString → Outcome NetworkParams
unfolding bytes_equal str
get_btc_network_params network =
    if bytes_equal network (str "testnet3")
    then ok test_net3_params
    else if bytes_equal network (str "mainnet")
    then ok main_net_params
    else if bytes_equal network (str "regtest")
    then ok regression_net_params
    else if bytes_equal network (str "simnet")
    then ok sim_net_params
    else if bytes_equal network (str "signet")
    then ok sig_net_params
    else err (new (str "unknown network " ++ network))

unfoldable pub parse : BtcConfig → Outcome ParsedBtcConfig
parse c = do
  params ← get_btc_network_params c.network
  ok (record { host = c.host; user = c.user; pass = c.pass; network = params })
