-- ===== src/Cmd/Delivery.antt =====
-- A client of a running service gets the signature: signerservice/client.go against what
-- cmd/signerCmd.go starts.
use covenant_signer.Prelude.{◌≡◌, refl, ◌∙◌, All, ◌≤◌, ap, length}
use covenant_signer.Go.Text.{GoString, Bytes, str}
use covenant_signer.Go.Outcome.{ok, answer}
use covenant_signer.Go.Hex.Laws.{IsByte}
use covenant_signer.Btc.{Btc}
use covenant_signer.SignerApp.Assembly.{SourceRanges, assembled-Signed_iff}
use covenant_signer.SignerApp.PsbtSigner.{psbt_signer}
use covenant_signer.SignerApp.Signer.Approval.{StakingLaws}
use covenant_signer.SignerApp.Signer.Signing.{Signed}
use covenant_signer.SignerService.Client.{max_response_size, request_covenant_signaure}
use covenant_signer.SignerService.Client.Network.{over, posted, path_at-append}
use covenant_signer.SignerService.Client.Delivery.{
  CodecLaws, payload, serve_signed, read_response_signed,
}
use covenant_signer.SignerService.Handlers.{State}
use covenant_signer.SignerService.Router.{ChiLaws}
use covenant_signer.SignerService.Server.Logs.{opened, completed}
use covenant_signer.SignerService.Server.Routes.{handler-routed}
use covenant_signer.Cmd.{Parts, Prepared}
use covenant_signer.Cmd.Laws.{Serves}
use covenant_signer.Cmd.Service.{serving_app}
use covenant_signer.Go.Hex.{encode_to_string}
use covenant_signer.SignerService.Http.{public_response}
use covenant_signer.Utils.{serialize_btc_tx, serialize_btc_tx_to_hex}

module _ {btc : Btc} {W : Type 0} (parts : Parts btc W) {w w' : W}
    {p : Prepared W parts.prometheus.Registry} (v : Serves parts w p w')
    (chi_laws : ChiLaws parts.chi) (laws : StakingLaws parts.staking)
    (sources : SourceRanges (parts.connector.rpc v.full_node) parts.networks v.params)
    (codec : CodecLaws btc parts.json) where
  -- Let the codecs read what they write, the script be bytes, and the transaction serialize. If
  -- a client, whose transport reaches the server under the client's URL and hands what is posted
  -- to a path there to the handler of a service that `start` prepared, is given arguments that
  -- pass the validation of docs/validation.md in the world in which the request reaches the
  -- handler, the wallet signs there, the encoded request fits the service's limit, and the
  -- encoded response the client's, then under the laws of chi and of btcstaking and with sources
  -- in the ranges of their types the client returns the wallet's signature.
  pub client_served :
      (url : GoString) (unbonding_tx : btc.MsgTx) (staker_sig : btc.Signature) (key : btc.PublicKey)
      (pk_script tx_bytes : Bytes) (bytes : All IsByte pk_script)
      (serializes : btc.serialize_tx unbonding_tx ≡ answer tx_bytes) (s₀ : State W)
      (s : btc.Signature) (w₁ : W) (req_bytes res_bytes : Bytes)
      → Signed parts.staking
          (serving_app parts v)
          pk_script
          unbonding_tx
          staker_sig
          key
          (opened parts.instruments (str "/v1/sign-unbonding-tx") s₀).1
          s
          w₁
      → parts.json.marshal_request (
          payload parts.staking parts.json codec
            (serving_app parts v)
            unbonding_tx
            staker_sig
            key
            pk_script
            tx_bytes
            bytes
            serializes)
        ≡ answer req_bytes
      → length req_bytes ≤ v.parsed.server_config.max_content_length
      → parts.json.marshal (
          public_response (record { signature_hex = encode_to_string (btc.serialize_signature s) }))
        ≡ answer res_bytes
      → length res_bytes ≤ max_response_size
      → (request_covenant_signaure btc parts.json
          (over url p.server.handler)
          url
          unbonding_tx
          staker_sig
          key
          pk_script
          s₀).0
        ≡ ok s
  unfolding request_covenant_signaure serialize_btc_tx_to_hex serialize_btc_tx
  client_served url unbonding_tx staker_sig key pk_script tx_bytes bytes serializes s₀ s w₁
        req_bytes res_bytes signed encodes fits marshals small =
      let app = serving_app parts v in
      let limit = v.parsed.server_config.max_content_length in
      let start = opened parts.instruments (str "/v1/sign-unbonding-tx") s₀ in
      let signs =
        (assembled-Signed_iff (parts.connector.rpc v.full_node) parts.networks v.params sources
            parts.staking laws (psbt_signer parts.psbt parts.staking (parts.connector.rpc v.wallet))
            v.parsed.signer_app_config (parts.chain_params v.parsed.btc_node_config.network)
            pk_script unbonding_tx staker_sig key start.1 w₁ s).1
          signed in
      let served =
        serve_signed parts.staking parts.json codec app unbonding_tx staker_sig key pk_script
          tx_bytes bytes serializes limit start.0 start.1 w₁ s req_bytes res_bytes encodes fits
          signs marshals in
      let handled =
        handler-routed parts.staking parts.json app parts.chi chi_laws parts.instruments v.parsed
          p.server v.made (posted req_bytes) s₀ refl refl
        ∙ ap (completed parts.instruments (str "/v1/sign-unbonding-tx") _ _) served in
      rw (
        serializes,
        encodes,
        path_at-append url (str "/v1/sign-unbonding-tx"),
        handled,
        read_response_signed parts.staking parts.json codec app unbonding_tx staker_sig key
            pk_script tx_bytes bytes serializes s res_bytes marshals small,
      )
