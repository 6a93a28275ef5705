-- ===== src/SignerApp/Assembly.antt =====
-- The signing application over real components: signerapp/btc_chain_info.go and
-- signerapp/babylon_params_retriever.go, with any wallet. Its answers keep the ranges that the
-- application's theorems ask for.
use covenant_signer.Prelude.{ℕ, ◌≡◌, ◌↔◌, refl, ap, sym, subst, Option, some, none, arith}
use covenant_signer.Prelude.Int.{IsUint16, IsUint32, IsInt64, ◌≤ℤ◌, to_uint32, ℤ, pos, negsuc}
use covenant_signer.Go.Text.{Bytes}
use covenant_signer.Go.Outcome.{ok, answer, ok-injective, or_err, or_err-eq-ok}
use covenant_signer.Go.Exec.{continue-eq-ok}
use covenant_signer.Btc.{Btc, Staking}
use covenant_signer.Btc.Rpc.{Rpc, TxConfirmation, TxConfStatus}
use covenant_signer.Btc.Networks.{Networks, VersionedGlobalParams}
use covenant_signer.BtcClient.Node
use covenant_signer.Config.App.{ParsedSignerAppConfig}
use covenant_signer.SignerApp.Interfaces.{
  BabylonParams, ExternalBtcSigner, TxInfo, SigningRequest, SigningResult,
}
use covenant_signer.SignerApp.ChainInfo.{bitcoind_chain_info, best_block_height}
use covenant_signer.SignerApp.ChainInfo.Laws.{Confirmed, tx_by_hash-Confirmed}
use covenant_signer.SignerApp.ParamsRetriever.{
  versioned_params_retriever, params_by_height, params_of, to_babylon_params,
}
use covenant_signer.SignerApp.Signer.{SignerApp, sign_unbonding_transaction}
use covenant_signer.SignerApp.Signer.Approval.{InRange, StakingLaws}
use covenant_signer.SignerApp.Signer.Validation.{Ranges, Validated}
use covenant_signer.SignerApp.Signer.Signing.{Signed, sign_unbonding_transaction_iff}

to_uint32-IsUint32 : (z : ℤ) → IsUint32 (to_uint32 z)
unfolding to_uint32
to_uint32-IsUint32 (pos n) = omega arith
to_uint32-IsUint32 (negsuc n) = omega arith

-- The fields of the parser's parameters have the ranges of their types, and the fee and the least
-- amount are not negative.
pub record IsInRange {btc : Btc} (v : VersionedGlobalParams btc) : Type 0 where
  pub depth : IsUint16 v.confirmation_depth
  pub fee : IsInt64 v.unbonding_fee
  pub fee_nonneg : pos 0 ≤ℤ v.unbonding_fee
  pub max_amount : IsInt64 v.max_staking_amount
  pub min_nonneg : pos 0 ≤ℤ v.min_staking_amount

-- The fields of the application's parameters are those of the same names.
pub record Copies {btc : Btc} (v : VersionedGlobalParams btc) (params : BabylonParams btc)
    : Type 0 where
  pub keys : params.covenant_public_keys ≡ v.covenant_pks
  pub quorum : params.covenant_quorum ≡ v.covenant_quorum
  pub tag : params.magic_bytes ≡ v.tag
  pub unbonding_time : params.unbonding_time ≡ v.unbonding_time
  pub unbonding_fee : params.unbonding_fee ≡ v.unbonding_fee
  pub max_amount : params.max_staking_amount ≡ v.max_staking_amount
  pub min_amount : params.min_staking_amount ≡ v.min_staking_amount
  pub max_time : params.max_staking_time ≡ v.max_staking_time
  pub min_time : params.min_staking_time ≡ v.min_staking_time
  pub depth : params.confirmation_depth ≡ v.confirmation_depth

to_babylon_params-Copies :
    {btc : Btc} (v : VersionedGlobalParams btc) → Copies v (to_babylon_params v)
unfolding to_babylon_params
to_babylon_params-Copies v = record {
  keys = refl;
  quorum = refl;
  tag = refl;
  unbonding_time = refl;
  unbonding_fee = refl;
  max_amount = refl;
  min_amount = refl;
  max_time = refl;
  min_time = refl;
  depth = refl;
}

to_babylon_params-InRange :
    {btc : Btc} (v : VersionedGlobalParams btc) → IsInRange v → InRange (to_babylon_params v)
unfolding to_babylon_params
to_babylon_params-InRange v r = record {
  depth = r.depth;
  fee = r.fee;
  fee_nonneg = r.fee_nonneg;
  max_amount = r.max_amount;
  min_nonneg = r.min_nonneg;
}

module _ {btc : Btc} {W : Type 0} (rpc : Rpc btc W) (networks : Networks btc W)
    (parsed : networks.ParsedGlobalParams) where
  abbrev pub assembled :
      ExternalBtcSigner btc W → ParsedSignerAppConfig → btc.Network → SignerApp btc W
  assembled wallet cfg net = record {
    s = wallet;
    r = bitcoind_chain_info rpc;
    p = versioned_params_retriever networks parsed;
    cfg = cfg;
    net = net;
  }

  best_block_height-IsUint32 :
      (w w' : W) (n : ℕ) → best_block_height rpc w ≡ (ok n, w') → IsUint32 n
  unfolding best_block_height Node.best_block_height
  best_block_height-IsUint32 w w' n h =
      let count = rpc.get_block_count w in
      let (z, e, h₁) = continue-eq-ok (or_err count.0) _ count.1 h in
      subst IsUint32 (ok-injective (ap (λ x. x.0) h₁)) (to_uint32-IsUint32 z)

  -- A confirmed height is a `uint32`, and the parser of the parameters sees to their ranges.
  pub record SourceRanges : Type 0 where
    pub height :
        (request : rpc.ConfRequest) (text : Bytes) (w w' : W) (conf : TxConfirmation btc)
        (status : TxConfStatus)
        → rpc.conf_details_from_tx_index request text w ≡ (answer (some conf, status), w')
        → IsUint32 conf.block_height
    pub params :
        (height : ℕ) (v : VersionedGlobalParams btc)
        → networks.versioned_params_by_height parsed height ≡ some v
        → IsInRange v

  -- What the answers of a validation are in the node's and the parser's terms
  pub record Sourced (pk_script : Bytes) (hash : btc.Hash) (w w₁ w₂ : W) (info : TxInfo btc)
      (best_block : ℕ) (params : BabylonParams btc) : Type 0 where
    pub confirmed : Confirmed rpc hash pk_script w info w₁
    pub count : ℤ
    pub counted : rpc.get_block_count w₁ ≡ (answer count, w₂)
    pub same_best : best_block ≡ to_uint32 count
    pub version : VersionedGlobalParams btc
    pub has_version :
        networks.versioned_params_by_height parsed info.tx_inclusion_height ≡ some version
    pub copies : Copies version params

  params_of-Copies :
      (height : ℕ) (v : Option (VersionedGlobalParams btc)) (params : BabylonParams btc)
      → params_of height v ≡ ok params
      → (version : VersionedGlobalParams btc) × (v ≡ some version) × Copies version params
  unfolding params_of
  params_of-Copies height none params h = cc
  params_of-Copies height (some v) params h =
      (v, refl, subst (Copies v) (ok-injective h) (to_babylon_params-Copies v))

  best_block_height-eq-ok :
      (w w' : W) (n : ℕ)
      → best_block_height rpc w ≡ (ok n, w')
      → (z : ℤ) × (rpc.get_block_count w ≡ (answer z, w')) × (n ≡ to_uint32 z)
  unfolding best_block_height Node.best_block_height
  best_block_height-eq-ok w w' n h =
      let reply = rpc.get_block_count w in
      let (z, e, h₁) = continue-eq-ok (or_err reply.0) _ reply.1 h in
      let given = or_err-eq-ok reply.0 e in
      (z, (λ i. (given i, (h₁ i).1)), sym (ok-injective (ap (λ x. x.0) h₁)))

  module _ (staking : Staking btc) (wallet : ExternalBtcSigner btc W) (cfg : ParsedSignerAppConfig)
      (net : btc.Network) (pk_script : Bytes) (tx : btc.MsgTx) (sig : btc.Signature)
      (key : btc.PublicKey) (w : W) where
    Validated-Sourced :
        (request : SigningRequest btc) (w₃ : W)
        (v : Validated staking (assembled wallet cfg net) pk_script tx sig key w request w₃)
        → Sourced pk_script
            (btc.previous_out_point v.input).hash
            w
            v.w₁
            v.w₂
            v.info
            v.best_block
            v.params
    unfolding params_by_height
    Validated-Sourced request w₃ v =
        let (count, counted, same_best) =
          best_block_height-eq-ok v.w₁ v.w₂ v.best_block v.has_best in
        let (version, has_version, copies) =
          params_of-Copies v.info.tx_inclusion_height _ v.params (ap (λ x. x.0) v.has_params) in
        record {
          confirmed = tx_by_hash-Confirmed rpc _ pk_script w v.w₁ v.info v.has_info;
          count = count;
          counted = counted;
          same_best = same_best;
          version = version;
          has_version = has_version;
          copies = copies;
        }

    -- What was signed, with where the answers come from
    abbrev pub SignedFrom : btc.Signature → W → Type 0
    SignedFrom s w' =
        (request : SigningRequest btc) × (w₃ : W) × (result : SigningResult btc) × (v : Validated
          staking (assembled wallet cfg net) pk_script tx sig key w request w₃)
        × (wallet.raw_signature request w₃ ≡ (ok result, w'))
        × (result.signature ≡ s)
        × Sourced pk_script (btc.previous_out_point v.input).hash w v.w₁ v.w₂ v.info v.best_block
            v.params

  module _ (sources : SourceRanges) where
    params_of-InRange :
        (height : ℕ) (v : Option (VersionedGlobalParams btc)) (params : BabylonParams btc)
        → networks.versioned_params_by_height parsed height ≡ v
        → params_of height v ≡ ok params
        → InRange params
    unfolding params_of
    params_of-InRange height none params e h = cc
    params_of-InRange height (some v) params e h =
        subst InRange (ok-injective h) (to_babylon_params-InRange v (sources.params height v e))

    pub assembled-Ranges :
        (wallet : ExternalBtcSigner btc W) (cfg : ParsedSignerAppConfig) (net : btc.Network)
        → Ranges (assembled wallet cfg net)
    assembled-Ranges wallet cfg net = record {
      height = λ hash script w w' info h.
          let c = tx_by_hash-Confirmed rpc hash script w w' info h in
          rw c.same_height (sources.height _ _ _ _ _ _ c.answered);
      best_block = λ w w' n h. best_block_height-IsUint32 w w' n h;
      params = λ height w w' params h.
          params_of-InRange height _ params refl (unfold params_by_height in ap (λ x. x.0) h);
    }

    -- The conversions of the code keep the ranges, so that the application's theorem holds.
    pub assembled-Signed_iff :
        (staking : Staking btc) (laws : StakingLaws staking) (wallet : ExternalBtcSigner btc W)
        (cfg : ParsedSignerAppConfig) (net : btc.Network) (pk_script : Bytes) (tx : btc.MsgTx)
        (sig : btc.Signature) (key : btc.PublicKey) (w w' : W) (s : btc.Signature)
        → (sign_unbonding_transaction staking (assembled wallet cfg net) pk_script tx sig key w
            ≡ (ok s, w'))
          ↔ Signed staking (assembled wallet cfg net) pk_script tx sig key w s w'
    assembled-Signed_iff staking laws wallet cfg net pk_script tx sig key w w' s =
        sign_unbonding_transaction_iff staking (assembled wallet cfg net) pk_script tx sig key w
          laws (assembled-Ranges wallet cfg net) s w'

    -- Over the node's client and the parsed parameters, with any wallet, and under the laws of
    -- btcstaking, let confirmed heights be `uint32`, and let the parsed parameters' fields have
    -- the ranges of their types, with a fee and a least amount that are not negative. Then a
    -- call returns the signature `s` and leaves the world `w'` exactly if the request passes
    -- validation and the wallet returned `s` and left `w'`, where the staking transaction is one
    -- that the node confirmed, the best height is the node's block count as a `uint32`, and the
    -- parameters are, field by field, those of the version that was parsed for the height.
    pub assembled_signs_iff :
        (staking : Staking btc) (laws : StakingLaws staking) (wallet : ExternalBtcSigner btc W)
        (cfg : ParsedSignerAppConfig) (net : btc.Network) (pk_script : Bytes) (tx : btc.MsgTx)
        (sig : btc.Signature) (key : btc.PublicKey) (w w' : W) (s : btc.Signature)
        → (sign_unbonding_transaction staking (assembled wallet cfg net) pk_script tx sig key w
            ≡ (ok s, w'))
          ↔ SignedFrom staking wallet cfg net pk_script tx sig key w s w'
    assembled_signs_iff staking laws wallet cfg net pk_script tx sig key w w' s =
        let signs = assembled-Signed_iff staking laws wallet cfg net pk_script tx sig key w w' s in
        (
          λ h.
              let (request, w₃, result, v, signed, same) = signs.0 h in
              (
                request,
                w₃,
                result,
                v,
                signed,
                same,
                Validated-Sourced staking wallet cfg net pk_script tx sig key w request w₃ v,
              ),
          λ (request, w₃, result, v, signed, same, sourced).
              signs.1 (request, w₃, result, v, signed, same),
        )
