-- ===== src/SignerService/Client/Soundness.antt =====
-- What a client that reaches the service gets is a signature that the signer returned.
use covenant_signer.Prelude.{
  ℕ, bytes_equal, ◌≤◌, ◌≡◌, refl, ap, sym, subst, ◌∙◌, ◌++◌, ◌==◌, inl, inr, not, false, arith, All,
  Bool-cases, length,
}
use covenant_signer.Prelude.Int.{pos, ltb_ℤ}
use covenant_signer.Go.Text.{GoString, Bytes, str, decimal}
use covenant_signer.Go.Hex.{encode_to_string}
use covenant_signer.Go.Hex.Laws.{IsByte, decode_string-encode_to_string}
use covenant_signer.Go.Outcome.{
  Outcome, ok, err, panicked, ok-injective, new, Reply, answer, failure, or_err, or_err-eq-ok,
  bind-eq-ok, fail_if, fail_if-eq-ok,
}
use covenant_signer.Go.Exec.{Exec, continue-eq-ok}
use covenant_signer.Btc.{Btc, Staking}
use covenant_signer.Utils.{serialize_btc_tx, serialize_btc_tx_to_hex, schnor_signature_from_hex}
use covenant_signer.SignerApp.Signer.{SignerApp, sign_unbonding_transaction}
use covenant_signer.Observability.Metrics.{CovenantSignerMetrics}
use covenant_signer.SignerService.Http.{
  Json, Request, Response, public_response, max_bytes_reader, http_error,
}
use covenant_signer.SignerService.Handlers.{Handling, State, Arguments, decode_request, result}
use covenant_signer.SignerService.Responses.{write_marshalled, write_response}
use covenant_signer.SignerService.Server.{serve}
use covenant_signer.SignerService.Server.Laws.{serve_too_large, serve-200}
use covenant_signer.SignerService.Client.{
  max_response_size, read_all_max, read_response, request_covenant_signaure,
}
use covenant_signer.SignerService.Client.Network.{posted, arrives, over, at_route, path_at-append}
use covenant_signer.SignerService.Client.Delivery.{
  CodecLaws, loop_back, payload, decode_arguments-payload,
}

arrives-eq-ok :
    {S : Type 0} (x : Outcome Response × S) (res : Response)
    → or_err (arrives x).0 ≡ ok res
    → x ≡ (ok res, (arrives x).1)
arrives-eq-ok (ok r, s) res h = ap (λ y. (ok y, s)) (ok-injective h)
arrives-eq-ok (err e, s) res h = cc
arrives-eq-ok (panicked t, s) res h = cc

read_all_max-eq-ok :
    (max : ℕ) (bytes body : Bytes) → read_all_max max bytes ≡ ok body → body ≡ bytes
unfolding read_all_max
read_all_max-eq-ok max bytes body h = ground arith

module _ (btc : Btc) (json : Json) where
  read_response-status :
      (res : Response) (s : btc.Signature) → read_response btc json res ≡ ok s → res.status ≡ 200
  unfolding read_response
  read_response-status res s h =
      let (body, e, h₁) = bind-eq-ok (read_all_max max_response_size res.body) _ h in
      let (_, checked, h₂) =
        bind-eq-ok
          (fail_if (not (res.status == 200)) (
            new (
              str "signing request failed. status code: "
              ++ (decimal res.status ++ (str ", message: " ++ body)))))
          _ h₁ in
      let same = fail_if-eq-ok (not (res.status == 200)) _ checked in ground arith

  written_signature :
      (laws : CodecLaws btc json) (sig s : btc.Signature) (b : Bytes)
      → json.marshal (
          public_response
            (record { signature_hex = encode_to_string (btc.serialize_signature sig) }))
        ≡ answer b
      → read_response btc json
          (record { status = 200; content_type = str "application/json"; body = b })
        ≡ ok s
      → sig ≡ s
  unfolding read_response schnor_signature_from_hex
  written_signature laws sig s b e h =
      let (body, got, h₁) = bind-eq-ok (read_all_max max_response_size b) _ h in
      let h₂ =
        rw
          (
            read_all_max-eq-ok max_response_size b body got,
            laws.response _ b e,
            decode_string-encode_to_string (btc.serialize_signature sig) (laws.signature_bytes sig),
            laws.signature sig,
          )
          at h₁ in
      ok-injective h₂

  -- The signature that is read is the one that was written.
  read_written :
      (laws : CodecLaws btc json) (sig s : btc.Signature) (reply : Reply Bytes)
      → json.marshal (
          public_response
            (record { signature_hex = encode_to_string (btc.serialize_signature sig) }))
        ≡ reply
      → read_response btc json (write_marshalled 200 reply) ≡ ok s
      → sig ≡ s
  unfolding write_marshalled http_error
  read_written laws sig s (failure text) e h =
      let status : ◌≡◌ {A = ℕ} 500 200 =
        read_response-status (write_marshalled 200 (failure text)) s h in
      absurd (omega arith)
  read_written laws sig s (answer b) e h = written_signature laws sig s b e h

arguments-injective :
    {A : Type 0} {a b : A} → Path (Handling A) (ok (result a)) (ok (result b)) → a ≡ b
arguments-injective h = cc

module _ {btc : Btc} (staking : Staking btc) (json : Json) (laws : CodecLaws btc json) {W : Type 0}
    (app : SignerApp btc W) (max_content_length : ℕ) (unbonding_tx : btc.MsgTx)
    (staker_sig : btc.Signature) (key : btc.PublicKey) (pk_script tx_bytes : Bytes)
    (script_bytes : All IsByte pk_script)
    (serializes : btc.serialize_tx unbonding_tx ≡ answer tx_bytes) where
  abbrev sent : Arguments btc
  sent = record {
    pk_script = pk_script;
    covenant_public_key = key;
    unbonding_tx = unbonding_tx;
    staker_unbonding_sig = staker_sig;
  }

  -- A response with status 200 was within the limit.
  within_limit :
      (request : Request) (m : CovenantSignerMetrics) (w : W) (res : Response) (s' : State W)
      → serve staking json app max_content_length request (m, w) ≡ (ok res, s')
      → res.status ≡ 200
      → ltb_ℤ (pos max_content_length) request.content_length ≡ false
  unfolding http_error
  within_limit request m w res s' h status =
      elim (Bool-cases (ltb_ℤ (pos max_content_length) request.content_length)) [
        | inl large ↦
            let refused =
              sym
                (serve_too_large staking json app max_content_length request (m, w) (ground arith))
              ∙ h in
            let code : ◌≡◌ {A = ℕ} 413 200 =
              ap (λ z. z.status) (ok-injective (ap (λ z. z.0) refused)) ∙ status in
            absurd (omega arith)
        | inr within ↦ within
      ]

  decodes_sent :
      (b : Bytes) (args : Arguments btc)
      → json.marshal_request (
          payload staking json laws app unbonding_tx staker_sig key pk_script tx_bytes script_bytes
            serializes)
        ≡ answer b
      → length b ≤ max_content_length
      → decode_request btc json (max_bytes_reader max_content_length (posted b).body)
        ≡ ok (result args)
      → sent ≡ args
  unfolding decode_request max_bytes_reader
  decodes_sent b args e fits h = arguments-injective (
      rw
        (
          laws.request _ b max_content_length e fits,
          decode_arguments-payload staking json laws app unbonding_tx staker_sig key pk_script
              tx_bytes script_bytes serializes,
        )
        at h)

  -- What the client reads of a response to its payload is what the signer returned.
  pub served_sound :
      (b : Bytes) (m : CovenantSignerMetrics) (w : W) (res : Response) (s' : State W)
      (s : btc.Signature)
      → json.marshal_request (
          payload staking json laws app unbonding_tx staker_sig key pk_script tx_bytes script_bytes
            serializes)
        ≡ answer b
      → serve staking json app max_content_length (posted b) (m, w) ≡ (ok res, s')
      → read_response btc json res ≡ ok s
      → sign_unbonding_transaction staking app pk_script unbonding_tx staker_sig key w
        ≡ (ok s, s'.1)
  served_sound b m w res s' s e served reads =
      let status = read_response-status btc json res s reads in
      let (args, sig, decoded, signed, written) =
        serve-200 staking json app max_content_length (posted b) m w res s' served status in
      let within = within_limit (posted b) m w res s' served status in
      let same_args = decodes_sent b args e (ground arith) decoded in
      let same : sig ≡ s =
        read_written btc json laws sig s _ refl (unfold write_response in rw written at reads) in
      subst
        (λ (a : Arguments btc).
          sign_unbonding_transaction staking app a.pk_script a.unbonding_tx a.staker_unbonding_sig
            a.covenant_public_key w
          ≡ (ok sig, s'.1))
        (sym same_args) signed
      ∙ (λ i. (ok (same i), s'.1))

  -- What the client did, if it returns: it posted its payload and read the response.
  pub record Posted (handler : Request → Exec (State W) Response) (s₀ : State W) (s : btc.Signature)
      (s' : State W) : Type 0 where
    pub body : Bytes
    pub encodes :
        json.marshal_request (
          payload staking json laws app unbonding_tx staker_sig key pk_script tx_bytes script_bytes
            serializes)
        ≡ answer body
    pub res : Response
    pub answers : handler (posted body) s₀ ≡ (ok res, s')
    pub reads : read_response btc json res ≡ ok s

  pub request_covenant_signaure-Posted :
      (handler : Request → Exec (State W) Response) (url : GoString) (s₀ : State W)
      (s : btc.Signature) (s' : State W)
      → request_covenant_signaure btc json
          (over url handler)
          url
          unbonding_tx
          staker_sig
          key
          pk_script
          s₀
        ≡ (ok s, s')
      → Posted handler s₀ s s'
  unfolding request_covenant_signaure serialize_btc_tx_to_hex serialize_btc_tx
  request_covenant_signaure-Posted handler url s₀ s s' h =
      let h₀ = rw (serializes, path_at-append url (str "/v1/sign-unbonding-tx")) at h in
      let (b, e₁, h₁) = continue-eq-ok (or_err (json.marshal_request _)) _ s₀ h₀ in
      let x = handler (posted b) s₀ in
      let (res, e₂, h₂) = continue-eq-ok (or_err (arrives x).0) _ (arrives x).1 h₁ in
      record {
        body = b;
        encodes = or_err-eq-ok _ e₁;
        res = res;
        answers = arrives-eq-ok x res e₂ ∙ (λ i. (ok res, (h₂ i).1));
        reads = ap (λ y. y.0) h₂;
      }

  -- Let the codecs read what they write, the script be bytes, the transaction serialize, and the
  -- transport hand a posted body to the service. If the client returns `s`, then the signer
  -- returned `s` for exactly the transaction, the staker's signature, the key and the script
  -- that the client was given, in the world that the client's call started from, and left the
  -- world that the client's call left.
  pub request_covenant_signaure_sound :
      (url : GoString) (m : CovenantSignerMetrics) (w : W) (s : btc.Signature) (s' : State W)
      → request_covenant_signaure btc json
          (loop_back staking json laws app url max_content_length)
          url
          unbonding_tx
          staker_sig
          key
          pk_script
          (m, w)
        ≡ (ok s, s')
      → sign_unbonding_transaction staking app pk_script unbonding_tx staker_sig key w
        ≡ (ok s, s'.1)
  unfolding bytes_equal str
  request_covenant_signaure_sound url m w s s' h =
      let posted_it =
        request_covenant_signaure-Posted (at_route (serve staking json app max_content_length)) url
          (m, w) s s' h in
      served_sound posted_it.body m w posted_it.res s' s posted_it.encodes posted_it.answers
        posted_it.reads
