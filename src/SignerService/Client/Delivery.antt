-- ===== src/SignerService/Client/Delivery.antt =====
-- A client that reaches the service gets the signature that the signer returns.
use covenant_signer.Prelude.{ℕ, bytes_equal, ◌≤◌, ◌≡◌, ◌∙◌, some, arith, All, length}
use covenant_signer.Go.Text.{GoString, Bytes, str}
use covenant_signer.Go.Hex.{encode_to_string}
use covenant_signer.Go.Hex.Laws.{IsByte, decode_string-encode_to_string}
use covenant_signer.Go.Outcome.{ok, answer}
use covenant_signer.Btc.{Btc, Staking}
use covenant_signer.Utils.{
  serialize_btc_tx, new_btc_tx_from_hex, serialize_btc_tx_to_hex, schnor_signature_from_hex,
}
use covenant_signer.SignerApp.Signer.{SignerApp, sign_unbonding_transaction}
use covenant_signer.Observability.Metrics.{
  CovenantSignerMetrics, inc_received_signing_requests, inc_successful_signing_requests,
}
use covenant_signer.SignerService.Types.{SignUnbondingTxRequest, SignUnbondingTxResponse}
use covenant_signer.SignerService.Http.{
  Json, Request, public_response, max_bytes_reader, has_status_text,
}
use covenant_signer.SignerService.Handlers.{
  State, decode_arguments, decode_request, finish, result, sign_arguments, sign_unbonding,
  new_result, parse_schnorr_sig_from_hex,
}
use covenant_signer.SignerService.Responses.{respond, register_handler, write_response}
use covenant_signer.SignerService.Server.{serve}
use covenant_signer.SignerService.Server.Laws.{serve_within}
use covenant_signer.SignerService.Client.Network.{posted, over, at_route, path_at-append}
use covenant_signer.SignerService.Client.{
  Transport, max_response_size, read_all_max, signing_payload, read_response,
  request_covenant_signaure,
}

-- What the codecs document: what one writes the other reads, and bytes are below 256.
pub record CodecLaws (btc : Btc) (json : Json) : Type 0 where
  pub key : (k : btc.PublicKey) → btc.parse_pub_key (btc.serialize_compressed k) ≡ answer k
  pub key_bytes : (k : btc.PublicKey) → All IsByte (btc.serialize_compressed k)
  pub signature : (s : btc.Signature) → btc.parse_signature (btc.serialize_signature s) ≡ answer s
  pub signature_bytes : (s : btc.Signature) → All IsByte (btc.serialize_signature s)
  pub tx :
      (tx : btc.MsgTx) (b : Bytes)
      → btc.serialize_tx tx ≡ answer b
      → btc.deserialize_tx b ≡ answer tx
  pub tx_bytes : (tx : btc.MsgTx) (b : Bytes) → btc.serialize_tx tx ≡ answer b → All IsByte b
  pub request :
      (p : SignUnbondingTxRequest) (b : Bytes) (limit : ℕ)
      → json.marshal_request p ≡ answer b
      → length b ≤ limit
      → json.decode_request (record { content = b; limit = some limit }) ≡ answer p
  pub response :
      (p : SignUnbondingTxResponse) (b : Bytes)
      → json.marshal (public_response p) ≡ answer b
      → json.unmarshal_response b ≡ answer p

read_all_max_lem :
    (body : Bytes) → length body ≤ max_response_size → read_all_max max_response_size body ≡ ok body
unfolding read_all_max
read_all_max_lem body h = ground arith

module _ {btc : Btc} (staking : Staking btc) (json : Json) (laws : CodecLaws btc json) {W : Type 0}
    (app : SignerApp btc W) where
  -- A transport to a server that answers a POST at the one route as the service does, and any other
  -- request with 404.
  abbrev pub loop_back : GoString → ℕ → Transport (State W)
  loop_back base max_content_length =
      over base (at_route (serve staking json app max_content_length))

  module _ (unbonding_tx : btc.MsgTx) (staker_sig : btc.Signature) (key : btc.PublicKey)
      (pk_script tx_bytes : Bytes) (script_bytes : All IsByte pk_script)
      (serializes : btc.serialize_tx unbonding_tx ≡ answer tx_bytes) where
    abbrev pub payload : SignUnbondingTxRequest
    payload = signing_payload btc (encode_to_string tx_bytes) staker_sig key pk_script

    -- The service decodes what the client encodes.
    pub decode_arguments-payload :
        decode_arguments btc payload
        ≡ ok (
            result (record {
              pk_script = pk_script;
              covenant_public_key = key;
              unbonding_tx = unbonding_tx;
              staker_unbonding_sig = staker_sig;
            }))
    unfolding decode_arguments signing_payload parse_schnorr_sig_from_hex new_btc_tx_from_hex
    decode_arguments-payload = rw (
      decode_string-encode_to_string pk_script script_bytes,
      decode_string-encode_to_string (btc.serialize_compressed key) (laws.key_bytes key),
      laws.key key,
      decode_string-encode_to_string tx_bytes (laws.tx_bytes unbonding_tx tx_bytes serializes),
      laws.tx unbonding_tx tx_bytes serializes,
      decode_string-encode_to_string (btc.serialize_signature staker_sig)
          (laws.signature_bytes staker_sig),
      laws.signature staker_sig,
    )

    -- The handler signs what it decodes.
    pub sign_unbonding-signed :
        (m : CovenantSignerMetrics) (w w' : W) (s : btc.Signature)
        → sign_unbonding_transaction staking app pk_script unbonding_tx staker_sig key w
          ≡ (ok s, w')
        → (request : Request) → json.decode_request request.body ≡ answer payload
        → sign_unbonding staking json app request (m, w) ≡ (
          ok (
              result (
                new_result
                  (record { signature_hex = encode_to_string (btc.serialize_signature s) }))),
          (inc_successful_signing_requests (inc_received_signing_requests m), w'),
        )
    unfolding sign_unbonding sign_arguments decode_request finish
    sign_unbonding-signed m w w' s signs request decodes =
        rw (decodes, decode_arguments-payload, signs)

    -- The response to it carries the signer's signature.
    pub finish_signed :
        (m : CovenantSignerMetrics) (w w' : W) (s : btc.Signature) (res_bytes : Bytes)
        → sign_unbonding_transaction staking app pk_script unbonding_tx staker_sig key w
          ≡ (ok s, w')
        → json.marshal (
            public_response
              (record { signature_hex = encode_to_string (btc.serialize_signature s) }))
          ≡ answer res_bytes
        → (request : Request) → json.decode_request request.body ≡ answer payload
        → register_handler json (sign_unbonding staking json app) request (m, w) ≡ (
          ok (record { status = 200; content_type = str "application/json"; body = res_bytes }),
          (inc_successful_signing_requests (inc_received_signing_requests m), w'),
        )
    unfolding register_handler respond write_response new_result has_status_text
    finish_signed m w w' s res_bytes signs marshals request decodes =
        rw (sign_unbonding-signed m w w' s signs request decodes, marshals)

    -- So does the service, for a request within its limit.
    pub serve_signed :
        (max_content_length : ℕ) (m : CovenantSignerMetrics) (w w' : W) (s : btc.Signature)
        (req_bytes res_bytes : Bytes)
        → json.marshal_request payload ≡ answer req_bytes
        → length req_bytes ≤ max_content_length
        → sign_unbonding_transaction staking app pk_script unbonding_tx staker_sig key w
          ≡ (ok s, w')
        → json.marshal (
            public_response
              (record { signature_hex = encode_to_string (btc.serialize_signature s) }))
          ≡ answer res_bytes
        → serve staking json app max_content_length (posted req_bytes) (m, w) ≡ (
          ok (record { status = 200; content_type = str "application/json"; body = res_bytes }),
          (inc_successful_signing_requests (inc_received_signing_requests m), w'),
        )
    serve_signed max m w w' s req_bytes res_bytes encodes fits signs marshals =
        serve_within staking json app max (posted req_bytes) (m, w) (omega arith)
        ∙ finish_signed m w w' s res_bytes signs marshals
            (record (posted req_bytes) { body = max_bytes_reader max (posted req_bytes).body })
            (unfold max_bytes_reader in laws.request payload req_bytes max encodes fits)

    pub read_response_signed :
        (s : btc.Signature) (res_bytes : Bytes)
        → json.marshal (
            public_response
              (record { signature_hex = encode_to_string (btc.serialize_signature s) }))
          ≡ answer res_bytes
        → length res_bytes ≤ max_response_size
        → read_response btc json
            (record { status = 200; content_type = str "application/json"; body = res_bytes })
          ≡ ok s
    unfolding read_response schnor_signature_from_hex
    read_response_signed s res_bytes marshals small = rw (
      read_all_max_lem res_bytes small,
      laws.response _ res_bytes marshals,
      decode_string-encode_to_string (btc.serialize_signature s) (laws.signature_bytes s),
      laws.signature s,
    )

    -- Let the codecs read what they write, the script be bytes, the transaction serialize, and
    -- the transport reach a server under the client's URL, which hands a POST at
    -- /v1/sign-unbonding-tx to the service and answers any other request with 404. If the
    -- encoded request fits the service's limit and the encoded response the client's, and the
    -- signer signs the client's arguments, then the client returns that signature, the world is
    -- the one that the signer left, and the request is counted as received and as successful.
    pub request_covenant_signaure-delivers :
        (max_content_length : ℕ) (url : GoString) (m : CovenantSignerMetrics) (w w' : W)
        (s : btc.Signature) (req_bytes res_bytes : Bytes)
        → json.marshal_request payload ≡ answer req_bytes
        → length req_bytes ≤ max_content_length
        → sign_unbonding_transaction staking app pk_script unbonding_tx staker_sig key w
          ≡ (ok s, w')
        → json.marshal (
            public_response
              (record { signature_hex = encode_to_string (btc.serialize_signature s) }))
          ≡ answer res_bytes
        → length res_bytes ≤ max_response_size
        → request_covenant_signaure btc json
            (loop_back url max_content_length)
            url
            unbonding_tx
            staker_sig
            key
            pk_script
            (m, w)
          ≡ (ok s, (inc_successful_signing_requests (inc_received_signing_requests m), w'))
    unfolding request_covenant_signaure serialize_btc_tx_to_hex serialize_btc_tx bytes_equal str
    request_covenant_signaure-delivers max url m w w' s req_bytes res_bytes encodes fits signs
          marshals small =
        rw (
          serializes,
          encodes,
          path_at-append url (str "/v1/sign-unbonding-tx"),
          serve_signed max m w w' s req_bytes res_bytes encodes fits signs marshals,
          read_response_signed s res_bytes marshals small,
        )
