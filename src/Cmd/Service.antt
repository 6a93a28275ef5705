-- ===== src/Cmd/Service.antt =====
-- cmd/signerCmd.go: what a running service has signed. The server, the handler, the signing
-- application and the sources of its answers meet here.
use covenant_signer.Prelude.{◌≡◌, sym, ◌∙◌}
use covenant_signer.Go.Text.{str}
use covenant_signer.Go.Outcome.{ok}
use covenant_signer.Go.Hex.{encode_to_string}
use covenant_signer.Btc.{Btc}
use covenant_signer.SignerApp.Assembly.{assembled, SourceRanges, assembled-Signed_iff}
use covenant_signer.SignerApp.PsbtSigner.{psbt_signer}
use covenant_signer.SignerApp.Signer.{SignerApp}
use covenant_signer.SignerApp.Signer.Approval.{StakingLaws}
use covenant_signer.SignerApp.Signer.Signing.{Signed}
use covenant_signer.SignerService.Handlers.{State, Arguments, decode_request, result}
use covenant_signer.SignerService.Http.{Request, Response, max_bytes_reader, public_response}
use covenant_signer.SignerService.Responses.{write_response}
use covenant_signer.SignerService.Router.{ChiLaws}
use covenant_signer.SignerService.Server.{serve}
use covenant_signer.SignerService.Server.Laws.{serve-200}
use covenant_signer.SignerService.Server.Logs.{opened, logged-eq-ok}
use covenant_signer.SignerService.Server.Routes.{handler-routed}
use covenant_signer.Cmd.{Parts, Prepared}
use covenant_signer.Cmd.Laws.{Serves}

module _ {btc : Btc} {W : Type 0} (parts : Parts btc W) {w w' : W}
    {p : Prepared W parts.prometheus.Registry} (v : Serves parts w p w') where
  -- The application of the service
  abbrev pub serving_app : SignerApp btc W
  serving_app =
      assembled (parts.connector.rpc v.full_node) parts.networks v.params
        (psbt_signer parts.psbt parts.staking (parts.connector.rpc v.wallet))
        v.parsed.signer_app_config (parts.chain_params v.parsed.btc_node_config.network)

  -- A signature in a response: the arguments that the request's limited body decodes to pass
  -- validation in the world in which the request reached the handler, and the wallet signed the
  -- request that validation describes.
  pub record Endorsed (r : Request) (s : State W) (res : Response) : Type 0 where
    pub args : Arguments btc
    pub decodes :
        decode_request btc parts.json
          (max_bytes_reader v.parsed.server_config.max_content_length r.body)
        ≡ ok (result args)
    pub sig : btc.Signature
    pub w₁ : W
    pub signed :
        Signed parts.staking serving_app args.pk_script args.unbonding_tx args.staker_unbonding_sig
          args.covenant_public_key
          (opened parts.instruments r.path s).1
          sig
          w₁
    pub carries :
        res
        ≡ write_response parts.json 200 (
            public_response
              (record { signature_hex = encode_to_string (btc.serialize_signature sig) }))

  -- In a service that `start` prepared, under the laws of chi and of btcstaking and with sources
  -- in the ranges of their types, a response with status 200 to a POST at /v1/sign-unbonding-tx
  -- carries a signature for arguments that the request's limited body decodes to and that pass
  -- the validation of docs/validation.md against what the full node and the parameters answer,
  -- by the wallet's node for the request that the validation describes.
  pub Serves-Endorsed :
      (chi_laws : ChiLaws parts.chi) (laws : StakingLaws parts.staking)
      (sources : SourceRanges (parts.connector.rpc v.full_node) parts.networks v.params)
      (r : Request) (s s' : State W) (res : Response)
      → r.method ≡ str "POST"
      → r.path ≡ str "/v1/sign-unbonding-tx"
      → p.server.handler r s ≡ (ok res, s')
      → res.status ≡ 200
      → Endorsed r s res
  Serves-Endorsed chi_laws laws sources r s s' res post here h status =
      let inside =
        logged-eq-ok parts.instruments r.path
          (serve parts.staking parts.json serving_app v.parsed.server_config.max_content_length r) s
          res s'
          (sym (
              handler-routed parts.staking parts.json serving_app parts.chi chi_laws
                parts.instruments v.parsed p.server v.made r s post here)
            ∙ h) in
      let start = opened parts.instruments r.path s in
      let (args, sig, decodes, signs, carries) =
        serve-200 parts.staking parts.json serving_app v.parsed.server_config.max_content_length r
          start.0 start.1 res _ inside status in
      record {
        args = args;
        decodes = decodes;
        sig = sig;
        w₁ = _;
        signed =
            (assembled-Signed_iff (parts.connector.rpc v.full_node) parts.networks v.params sources
                parts.staking laws
                (psbt_signer parts.psbt parts.staking (parts.connector.rpc v.wallet))
                v.parsed.signer_app_config (parts.chain_params v.parsed.btc_node_config.network)
                args.pk_script args.unbonding_tx args.staker_unbonding_sig args.covenant_public_key
                _ _ sig).0
              signs;
        carries = carries;
      }
