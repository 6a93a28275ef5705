-- ===== src/SignerApp/PsbtSigner/Laws.antt =====
-- What the wallet is asked to sign, and which signature is taken from its answer.
use covenant_signer.Prelude.{
  ℕ, true, ◌≡◌, ap, sym, ◌∙◌, some, none, head?, List, [], ◌∷◌, length, ◌==◌,
}
use covenant_signer.Prelude.Int.{ℤ}
use covenant_signer.Go.Text.{GoString, Bytes, str}
use covenant_signer.Go.Outcome.{
  ok, ok-injective, errorf, answer, first, first-eq-ok, bind-eq-ok, or_fail, or_fail-eq-ok,
  map_error, map_error-eq-ok, fail_if, or_err, or_err-eq-ok,
}
use covenant_signer.Go.Exec.{continue-eq-ok}
use covenant_signer.Btc.{Btc, Staking, TxOut, OutPointOf}
use covenant_signer.Btc.Rpc.{Rpc, Psbt, Packet, PInput, TaprootScriptSpendSig}
use covenant_signer.BtcClient.Node
use covenant_signer.SignerApp.Interfaces.{SigningRequest, SigningResult}
use covenant_signer.SignerApp.PsbtSigner.{
  set_first_input, unsigned_packet, packet_signature, raw_signature,
}

-- What `psbt.New` documents: a new packet has one input for each outpoint.
pub record PsbtLaws {btc : Btc} (psbt : Psbt btc) : Type 0 where
  pub one_part :
      (p : OutPointOf btc.Hash) (outputs : List TxOut) (version : ℤ) (lock_time sequence : ℕ)
      (packet : Packet psbt.Others psbt.OtherParts)
      → psbt.new_packet (p ∷ []) outputs version lock_time (sequence ∷ []) ≡ answer packet
      → (i : PInput psbt.Others) × (packet.inputs ≡ i ∷ [])

module _ {btc : Btc} (psbt : Psbt btc) where
  -- The input of the packet that is sent: what the request says of it, over the input that the new
  -- packet has.
  abbrev pub to_sign : SigningRequest btc → Bytes → PInput psbt.Others → PInput psbt.Others
  to_sign request block i = record i {
    sighash_type = psbt.sig_hash_default;
    witness_utxo = some request.staking_output;
    bip32_derivation =
        record { pub_key = btc.serialize_compressed request.covenant_public_key } ∷ [];
    taproot_leaf_script =
        record {
          control_block = block;
          script = request.spend_description.script_leaf.script;
          leaf_version = request.spend_description.script_leaf.leaf_version;
        }
        ∷ [];
  }

  -- The packet for a request: one input, for the first input of the transaction.
  pub record Unsigned (request : SigningRequest btc) (packet : Packet psbt.Others psbt.OtherParts)
      : Type 0 where
    pub input : btc.TxIn
    pub spends : head? (btc.tx_in request.unbonding_transaction) ≡ some input
    pub made : Packet psbt.Others psbt.OtherParts
    pub makes :
        psbt.new_packet
          (btc.previous_out_point input ∷ [])
          (btc.tx_out request.unbonding_transaction)
          (btc.version request.unbonding_transaction)
          (btc.lock_time request.unbonding_transaction)
          (psbt.max_tx_in_sequence_num ∷ [])
        ≡ answer made
    pub part : PInput psbt.Others
    pub single : made.inputs ≡ part ∷ []
    pub block : Bytes
    pub has_block :
        btc.control_block_to_bytes request.spend_description.control_block ≡ answer block
    pub is : packet ≡ record made { inputs = to_sign request block part ∷ [] }

  unsigned_packet-Unsigned :
      (laws : PsbtLaws psbt) (request : SigningRequest btc)
      (packet : Packet psbt.Others psbt.OtherParts)
      → unsigned_packet psbt request ≡ ok packet
      → Unsigned request packet
  unfolding unsigned_packet set_first_input
  unsigned_packet-Unsigned laws request packet h =
      let tx = request.unbonding_transaction in
      let (input, listed, h₁) = bind-eq-ok (first (btc.tx_in tx)) _ h in
      let reply =
        psbt.new_packet (btc.previous_out_point input ∷ []) (btc.tx_out tx) (btc.version tx)
          (btc.lock_time tx) (psbt.max_tx_in_sequence_num ∷ []) in
      let (made, making, h₂) =
        bind-eq-ok
          (or_fail (errorf (str "failed to create PSBT packet with unbonding transaction")) reply) _
          h₁ in
      let makes =
        or_fail-eq-ok (errorf (str "failed to create PSBT packet with unbonding transaction")) reply
          making in
      let (part, single) = laws.one_part _ _ _ _ _ made makes in
      let h₃ = rw (set_first_input, single) at h₂ in
      let bytes = btc.control_block_to_bytes request.spend_description.control_block in
      let (block, has, h₄) =
        bind-eq-ok (or_fail (errorf (str "failed to serialize control block")) bytes) _ h₃ in
      record {
        input = input;
        spends = first-eq-ok (btc.tx_in tx) listed;
        made = made;
        makes = makes;
        part = part;
        single = single;
        block = block;
        has_block = or_fail-eq-ok (errorf (str "failed to serialize control block")) bytes has;
        is = sym (ok-injective h₄);
      }

  -- The signature is the first of the first input.
  pub record Contains (packet : Packet psbt.Others psbt.OtherParts) (result : SigningResult btc)
      : Type 0 where
    pub part : PInput psbt.Others
    pub is_first : head? packet.inputs ≡ some part
    pub spend_sig : TaprootScriptSpendSig
    pub is_first_sig : head? part.taproot_script_spend_sig ≡ some spend_sig
    pub parses : btc.parse_signature spend_sig.signature ≡ answer result.signature

  packet_signature-Contains :
      (packet : Packet psbt.Others psbt.OtherParts) (result : SigningResult btc)
      → packet_signature psbt packet ≡ ok result
      → Contains packet result
  unfolding packet_signature
  packet_signature-Contains packet result h =
      let (part, e₁, h₁) = bind-eq-ok (first packet.inputs) _ h in
      let (_, e₂, h₂) = bind-eq-ok (fail_if (length part.taproot_script_spend_sig == 0) _) _ h₁ in
      let (sig, e₃, h₃) = bind-eq-ok (first part.taproot_script_spend_sig) _ h₂ in
      let reply = btc.parse_signature sig.signature in
      let (s, e₄, h₄) =
        bind-eq-ok (or_fail (errorf (str "failed to parse schnorr signature in psbt packet")) reply)
          _ h₃ in
      record {
        part = part;
        is_first = first-eq-ok packet.inputs e₁;
        spend_sig = sig;
        is_first_sig = first-eq-ok part.taproot_script_spend_sig e₃;
        parses =
            or_fail-eq-ok (errorf (str "failed to parse schnorr signature in psbt packet")) reply e₄
            ∙ ap (λ r. answer r.signature) (ok-injective h₄);
      }

  module _ (laws : PsbtLaws psbt) (staking : Staking btc) {W : Type 0} (rpc : Rpc btc W) where
    -- A signature comes from the node: it was sent the encoded packet of the request, in the world
    -- of the call, to sign, and answered with a text that decodes to a packet with the signature.
    pub record Delegated (request : SigningRequest btc) (w : W) (result : SigningResult btc)
        (w' : W) : Type 0 where
      pub simple : staking.is_simple_transfer request.unbonding_transaction ≡ answer tt
      pub sent : Packet psbt.Others psbt.OtherParts
      pub unsigned : Unsigned request sent
      pub signed : Packet psbt.Others psbt.OtherParts
      pub encoded : GoString
      pub encodes : psbt.b64_encode sent ≡ answer encoded
      pub returned : GoString
      pub signs :
          rpc.wallet_process_psbt encoded (some true) (str "DEFAULT") none w ≡ (answer returned, w')
      pub decoded : Bytes
      pub decodes : psbt.base64_decode returned ≡ answer decoded
      pub reads : psbt.new_from_raw_bytes decoded ≡ answer signed
      pub contains : Contains signed result

    -- If a new packet has one input for each outpoint, a signature of the PSBT wallet comes from
    -- the node: the transaction is a simple transfer, the node was told by `walletprocesspsbt`
    -- to sign, with the sighash DEFAULT, the encoded packet with the staking output, the
    -- covenant key, the control block and the leaf of the request in its one input, and the
    -- signature is the first one in the first input of the packet that was read from the node's
    -- answer.
    pub psbt_signer-Delegated :
        (request : SigningRequest btc) (w w' : W) (result : SigningResult btc)
        → raw_signature psbt staking rpc request w ≡ (ok result, w')
        → Delegated request w result w'
    unfolding raw_signature Node.sign_psbt
    psbt_signer-Delegated request w w' result h =
        let sanity = staking.is_simple_transfer request.unbonding_transaction in
        let (_, e₁, h₁) =
          continue-eq-ok (or_fail (errorf (str "invalid unbonding transaction")) sanity) _ w h in
        let (sent, e₂, h₂) = continue-eq-ok (unsigned_packet psbt request) _ w h₁ in
        let call = Node.sign_psbt rpc psbt sent w in
        let (signed, e₃, h₃) =
          continue-eq-ok (map_error (errorf (str "failed to sign PSBT packet")) call.0) _ call.1
            h₂ in
        let same = map_error-eq-ok (str "failed to sign PSBT packet") call.0 e₃ in
        let signs : Node.sign_psbt rpc psbt sent w ≡ (ok signed, w') = λ i. (same i, (h₃ i).1) in
        let encode = psbt.b64_encode sent in
        let (encoded, e₄, h₄) = continue-eq-ok (or_err encode) _ w signs in
        let reply = rpc.wallet_process_psbt encoded (some true) (str "DEFAULT") none w in
        let (returned, e₅, h₅) = continue-eq-ok (or_err reply.0) _ reply.1 h₄ in
        let (decoded, e₆, h₆) =
          continue-eq-ok (or_err (psbt.base64_decode returned)) _ reply.1 h₅ in
        let given = or_err-eq-ok reply.0 e₅ in
        record {
          simple = or_fail-eq-ok (errorf (str "invalid unbonding transaction")) sanity e₁;
          sent = sent;
          unsigned = unsigned_packet-Unsigned laws request sent e₂;
          signed = signed;
          encoded = encoded;
          encodes = or_err-eq-ok encode e₄;
          returned = returned;
          signs = λ i. (given i, (h₆ i).1);
          decoded = decoded;
          decodes = or_err-eq-ok (psbt.base64_decode returned) e₆;
          reads = or_err-eq-ok (psbt.new_from_raw_bytes decoded) (ap (λ x. x.0) h₆);
          contains = packet_signature-Contains signed result (ap (λ x. x.0) h₃);
        }
