-- ===== src/BtcClient/Connection.antt =====
-- btcclient/client.go: the connection to a node. `rpcclient.New` and the calls of its client are
-- parameters.
use covenant_signer.Prelude.{Bool, true, false}
use covenant_signer.Go.Text.{GoString}
use covenant_signer.Go.Outcome.{Outcome, Reply, or_err}
use covenant_signer.Btc.{Btc}
use covenant_signer.Btc.Rpc.{Rpc}
use covenant_signer.Config.Network.{ParsedBtcConfig}

-- The fields of `rpcclient.ConnConfig` that the program sets
pub record ConnConfig : Type 0 where
  pub host : GoString
  pub user : GoString
  pub pass : GoString
  pub disable_tls : Bool
  pub disable_connect_on_new : Bool
  pub disable_auto_reconnect : Bool
  pub http_post_mode : Bool

unfoldable pub btc_config_to_conn_config : ParsedBtcConfig → ConnConfig
btc_config_to_conn_config cfg = record {
  host = cfg.host;
  user = cfg.user;
  pass = cfg.pass;
  disable_tls = true;
  disable_connect_on_new = true;
  disable_auto_reconnect = false;
  http_post_mode = true;
}

-- `rpcclient.New`, which does not connect, and the calls of the client that it returns
pub record Connector (btc : Btc) (W : Type 0) : Type 1 where
  pub Client : Type 0
  pub new_client : ConnConfig → Reply Client
  pub rpc : Client → Rpc btc W

-- `NewBtcClient`
unfoldable pub new_btc_client :
    {btc : Btc} {W : Type 0} (connector : Connector btc W)
    → ParsedBtcConfig
    → Outcome connector.Client
unfolding btc_config_to_conn_config
new_btc_client connector cfg = or_err (connector.new_client (btc_config_to_conn_config cfg))
