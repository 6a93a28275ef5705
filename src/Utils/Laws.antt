-- ===== src/Utils/Laws.antt =====
-- Transactions and signatures through hexadecimal.
use covenant_signer.Prelude.{◌≡◌, All}
use covenant_signer.Go.Text.{GoString, Bytes}
use covenant_signer.Go.Hex.Laws.{IsByte, decode_string-encode_to_string}
use covenant_signer.Go.Outcome.{ok, ok-injective, answer, or_err, or_err-eq-ok, bind-eq-ok}
use covenant_signer.Btc.{Btc}
use covenant_signer.Utils.{
  new_btc_tx_from_bytes, new_btc_tx_from_hex, serialize_btc_tx, serialize_btc_tx_to_hex,
}

module _ (btc : Btc)
    (deserialize-serialize : (tx : btc.MsgTx) (b : Bytes)
      → btc.serialize_tx tx ≡ answer b
      → btc.deserialize_tx b ≡ answer tx)
    (serialized : (tx : btc.MsgTx) (b : Bytes)
      → btc.serialize_tx tx ≡ answer b
      → All IsByte b) where
  -- If what a transaction serializes to are bytes from which it is read back, then the text that
  -- `SerializeBTCTxToHex` returns for it is read as the same transaction, with its
  -- serialization.
  pub new_btc_tx_from_hex-serialize_btc_tx_to_hex :
      (tx : btc.MsgTx) (hex : GoString)
      → serialize_btc_tx_to_hex btc tx ≡ ok hex
      → (b : Bytes) × (btc.serialize_tx tx ≡ answer b) × (new_btc_tx_from_hex btc hex ≡ ok (tx, b))
  unfolding serialize_btc_tx_to_hex serialize_btc_tx new_btc_tx_from_hex new_btc_tx_from_bytes
  new_btc_tx_from_hex-serialize_btc_tx_to_hex tx hex h =
      let (b, wrote, same) = bind-eq-ok (or_err (btc.serialize_tx tx)) _ h in
      let written = or_err-eq-ok (btc.serialize_tx tx) wrote in
      (
        b,
        written,
        rw (
          ← ok-injective same,
          decode_string-encode_to_string b (serialized tx b written),
          deserialize-serialize tx b written,
        ),
      )
