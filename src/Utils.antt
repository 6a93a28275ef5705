-- ===== src/Utils.antt =====
-- utils/btc.go: transactions, keys and signatures to and from hexadecimal.
pub mod Laws
use covenant_signer.Go.Text.{GoString, Bytes}
use covenant_signer.Go.Hex.{encode_to_string, decode_string}
use covenant_signer.Go.Outcome.{Outcome, ok, or_err, ◌>>=◌}
use covenant_signer.Btc.{Btc}

module _ (btc : Btc) where
  unfoldable pub new_btc_tx_from_bytes : Bytes → Outcome btc.MsgTx
  new_btc_tx_from_bytes tx_bytes = or_err (btc.deserialize_tx tx_bytes)

  unfoldable pub new_btc_tx_from_hex : GoString → Outcome (btc.MsgTx × Bytes)
  unfolding new_btc_tx_from_bytes
  new_btc_tx_from_hex tx_hex = do
    tx_bytes ← decode_string tx_hex
    parsed ← new_btc_tx_from_bytes tx_bytes
    ok (parsed, tx_bytes)

  unfoldable pub serialize_btc_tx : btc.MsgTx → Outcome Bytes
  serialize_btc_tx tx = or_err (btc.serialize_tx tx)

  unfoldable pub serialize_btc_tx_to_hex : btc.MsgTx → Outcome GoString
  unfolding serialize_btc_tx
  serialize_btc_tx_to_hex tx = do bytes ← serialize_btc_tx tx; ok (encode_to_string bytes)

  unfoldable pub pub_key_from_hex : GoString → Outcome btc.PublicKey
  pub_key_from_hex hex_string = do
    bytes ← decode_string hex_string
    or_err (btc.parse_schnorr_pub_key bytes)

  unfoldable pub schnor_signature_from_hex : GoString → Outcome btc.Signature
  schnor_signature_from_hex hex_string = do
    bytes ← decode_string hex_string
    or_err (btc.parse_signature bytes)
