-- ===== src/Cmd/Client.antt =====
-- A client of a running service: signerservice/client.go against what cmd/signerCmd.go starts.
use covenant_signer.Prelude.{◌≡◌, refl, sym, ◌∙◌, All}
use covenant_signer.Go.Text.{GoString, Bytes, str}
use covenant_signer.Go.Outcome.{ok, answer}
use covenant_signer.Go.Hex.Laws.{IsByte}
use covenant_signer.Btc.{Btc}
use covenant_signer.SignerApp.Assembly.{SourceRanges, assembled-Signed_iff}
use covenant_signer.SignerApp.PsbtSigner.{psbt_signer}
use covenant_signer.SignerApp.Signer.Approval.{StakingLaws}
use covenant_signer.SignerApp.Signer.Signing.{Signed}
use covenant_signer.SignerService.Client.{request_covenant_signaure}
use covenant_signer.SignerService.Client.Delivery.{CodecLaws}
use covenant_signer.SignerService.Client.Network.{over, posted}
use covenant_signer.SignerService.Client.Soundness.{served_sound, request_covenant_signaure-Posted}
use covenant_signer.SignerService.Handlers.{State}
use covenant_signer.SignerService.Router.{ChiLaws}
use covenant_signer.SignerService.Server.{serve}
use covenant_signer.SignerService.Server.Logs.{opened, logged-eq-ok}
use covenant_signer.SignerService.Server.Routes.{handler-routed}
use covenant_signer.Cmd.{Parts, Prepared}
use covenant_signer.Cmd.Laws.{Serves}
use covenant_signer.Cmd.Service.{serving_app}

module _ {btc : Btc} {W : Type 0} (parts : Parts btc W) {w w' : W}
    {p : Prepared W parts.prometheus.Registry} (v : Serves parts w p w')
    (chi_laws : ChiLaws parts.chi) (laws : StakingLaws parts.staking)
    (sources : SourceRanges (parts.connector.rpc v.full_node) parts.networks v.params)
    (codec : CodecLaws btc parts.json) where
  -- Let the codecs read what they write, the script be bytes, and the transaction serialize. If
  -- a client, whose transport reaches the server under the client's URL and hands what is posted
  -- to a path there to the handler of a service that `start` prepared, returns a signature, then
  -- under the laws of chi and of btcstaking and with sources in the ranges of their types, the
  -- client's transaction, staker's signature, key and script pass the validation of
  -- docs/validation.md, in the world in which the request reached the handler, and this is the
  -- wallet's signature for the request that the validation describes.
  pub client-Signed :
      (url : GoString) (unbonding_tx : btc.MsgTx) (staker_sig : btc.Signature) (key : btc.PublicKey)
      (pk_script tx_bytes : Bytes)
      → All IsByte pk_script
      → btc.serialize_tx unbonding_tx ≡ answer tx_bytes
      → (s₀ : State W) (s : btc.Signature) (s' : State W)
      → request_covenant_signaure btc parts.json
          (over url p.server.handler)
          url
          unbonding_tx
          staker_sig
          key
          pk_script
          s₀
        ≡ (ok s, s')
      → (w₁ : W) × Signed parts.staking
          (serving_app parts v)
          pk_script
          unbonding_tx
          staker_sig
          key
          (opened parts.instruments (str "/v1/sign-unbonding-tx") s₀).1
          s
          w₁
  client-Signed url unbonding_tx staker_sig key pk_script tx_bytes bytes serializes s₀ s s' h =
      let app = serving_app parts v in
      let limit = v.parsed.server_config.max_content_length in
      let did =
        request_covenant_signaure-Posted parts.staking parts.json codec app limit unbonding_tx
          staker_sig key pk_script tx_bytes bytes serializes p.server.handler url s₀ s s' h in
      let start = opened parts.instruments (str "/v1/sign-unbonding-tx") s₀ in
      let chain = serve parts.staking parts.json app limit (posted did.body) in
      let inside =
        logged-eq-ok parts.instruments (str "/v1/sign-unbonding-tx") chain s₀ did.res s' (
          sym (
            handler-routed parts.staking parts.json app parts.chi chi_laws parts.instruments
              v.parsed p.server v.made (posted did.body) s₀ refl refl)
          ∙ did.answers) in
      let signs =
        served_sound parts.staking parts.json codec app limit unbonding_tx staker_sig key pk_script
          tx_bytes bytes serializes did.body start.0 start.1 did.res (chain start).1 s did.encodes
          inside did.reads in
      (
        (chain start).1.1,
        (assembled-Signed_iff (parts.connector.rpc v.full_node) parts.networks v.params sources
              parts.staking laws
              (psbt_signer parts.psbt parts.staking (parts.connector.rpc v.wallet))
              v.parsed.signer_app_config (parts.chain_params v.parsed.btc_node_config.network)
              pk_script unbonding_tx staker_sig key _ _ s).0
            signs,
      )
