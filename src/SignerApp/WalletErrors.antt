-- ===== src/SignerApp/WalletErrors.antt =====
-- The errors of the two wallets blame no request: none wraps ErrInvalidSigningRequest.
use covenant_signer.Prelude.{
  ◌≡◌, refl, List, [], ◌∷◌, some, none, Bool, true, false, length, ◌==◌, ap, arith,
}
use covenant_signer.Go.Text.{GoString, str}
use covenant_signer.Go.Outcome.{
  GoError, new, errorf, is_invalid_signing_request, Outcome, ok, err, panicked, err-injective,
  first, fail_if, Reply, answer, failure, or_fail, or_err, map_error, ◌>>=◌,
}
use covenant_signer.Go.Exec.{Exec, Call, call, continue, lift, exec_or}
use covenant_signer.Go.Exec
use covenant_signer.Btc.{Btc, Staking}
use covenant_signer.Btc.Rpc.{Rpc, Psbt, Packet, PInput}
use covenant_signer.BtcClient.Node
use covenant_signer.SignerApp.Interfaces.{SigningRequest}
use covenant_signer.SignerApp.PsbtSigner
use covenant_signer.SignerApp.PrivKeySigner

-- The errors among the results blame no request.
abbrev pub BlamesNone : {A : Type 0} → Outcome A → Type 0
BlamesNone {A} m = (e : GoError) → Path (Outcome A) m (err e) → is_invalid_signing_request e ≡ false

ok-BlamesNone : {A : Type 0} (a : A) → BlamesNone (ok a)
ok-BlamesNone a e h = cc

new-BlamesNone : {A : Type 0} (text : GoString) → BlamesNone {A = A} (err (new text))
unfolding is_invalid_signing_request
new-BlamesNone text e h = ground arith

or_err-BlamesNone : {A : Type 0} (r : Reply A) → BlamesNone (or_err r)
or_err-BlamesNone (answer a) = ok-BlamesNone a
or_err-BlamesNone (failure text) = new-BlamesNone text

-- A prefix keeps what the error wraps.
or_fail-BlamesNone :
    {A : Type 0} (prefix : GoString) (r : Reply A) → BlamesNone (or_fail (errorf prefix) r)
unfolding errorf is_invalid_signing_request
or_fail-BlamesNone prefix (answer a) e h = cc
or_fail-BlamesNone prefix (failure text) e h = ground arith

map_error-BlamesNone :
    {A : Type 0} (prefix : GoString) (m : Outcome A)
    → BlamesNone m
    → BlamesNone (map_error (errorf prefix) m)
unfolding errorf is_invalid_signing_request
map_error-BlamesNone prefix (ok a) h e eq = cc
map_error-BlamesNone prefix (err x) h e eq = let plain = h x refl in ground arith
map_error-BlamesNone prefix (panicked t) h e eq = cc

fail_if-BlamesNone : (b : Bool) (text : GoString) → BlamesNone (fail_if b (new text))
fail_if-BlamesNone true text = new-BlamesNone text
fail_if-BlamesNone false text = ok-BlamesNone tt

first-BlamesNone : {A : Type 0} (xs : List A) → BlamesNone (first xs)
unfolding first
first-BlamesNone [] e h = cc
first-BlamesNone (x ∷ xs) e h = cc

bind-BlamesNone :
    {A B : Type 0} (m : Outcome A) (f : A → Outcome B)
    → BlamesNone m
    → ((a : A) → BlamesNone (f a))
    → BlamesNone (m >>= f)
bind-BlamesNone (ok a) f hm hf e h = hf a e h
bind-BlamesNone (err x) f hm hf e h = hm e (ap err (err-injective h))
bind-BlamesNone (panicked t) f hm hf e h = cc

continue-BlamesNone :
    {W A B : Type 0} (r : Outcome A) (f : A → Exec W B) (w : W)
    → BlamesNone r
    → ((a : A) (u : W) → BlamesNone (f a u).0)
    → BlamesNone (continue r f w).0
continue-BlamesNone (ok a) f w hr hf e h = hf a w e h
continue-BlamesNone (err x) f w hr hf e h = hr e (ap err (err-injective h))
continue-BlamesNone (panicked t) f w hr hf e h = cc

-- The same for a chain of calls.
exec_bind-BlamesNone :
    {W A B : Type 0} (m : Exec W A) (f : A → Exec W B)
    → ((u : W) → BlamesNone (m u).0)
    → ((a : A) (u : W) → BlamesNone (f a u).0)
    → (w : W) → BlamesNone (Exec.◌>>=◌ m f w).0
exec_bind-BlamesNone m f hm hf w = continue-BlamesNone (m w).0 f (m w).1 (hm w) hf

call-BlamesNone : {W A : Type 0} (m : Call W A) (w : W) → BlamesNone (call m w).0
call-BlamesNone m w = or_err-BlamesNone (m w).0

exec_or-BlamesNone :
    {W A : Type 0} (prefix : GoString) (m : Exec W A)
    → ((u : W) → BlamesNone (m u).0)
    → (w : W) → BlamesNone (exec_or (errorf prefix) m w).0
exec_or-BlamesNone prefix m h w = map_error-BlamesNone prefix (m w).0 (h w)

module _ {btc : Btc} {W : Type 0} (rpc : Rpc btc W) where
  dump_private_key-BlamesNone :
      (address : btc.Address) (w : W) → BlamesNone (Node.dump_private_key rpc address w).0
  unfolding Node.dump_private_key
  dump_private_key-BlamesNone address =
      exec_bind-BlamesNone (call (rpc.dump_priv_key address)) _
        (call-BlamesNone (rpc.dump_priv_key address)) λ wif u. ok-BlamesNone (rpc.priv_key wif)

  sign_psbt-BlamesNone :
      (psbt : Psbt btc) (packet : Packet psbt.Others psbt.OtherParts) (w : W)
      → BlamesNone (Node.sign_psbt rpc psbt packet w).0
  unfolding Node.sign_psbt
  sign_psbt-BlamesNone psbt packet =
      exec_bind-BlamesNone (lift (or_err (psbt.b64_encode packet))) _
        (λ u. or_err-BlamesNone (psbt.b64_encode packet))
        λ encoded.
          exec_bind-BlamesNone
            (call (rpc.wallet_process_psbt encoded (some true) (str "DEFAULT") none)) _
            (call-BlamesNone (rpc.wallet_process_psbt encoded (some true) (str "DEFAULT") none))
            λ processed.
              exec_bind-BlamesNone (lift (or_err (psbt.base64_decode processed))) _
                (λ u. or_err-BlamesNone (psbt.base64_decode processed))
                λ bytes u. or_err-BlamesNone (psbt.new_from_raw_bytes bytes)

  -- The wallet that hands out a private key
  priv_key_signer-BlamesNone :
      (staking : Staking btc) (request : SigningRequest btc) (w : W)
      → BlamesNone (PrivKeySigner.raw_signature staking rpc request w).0
  unfolding PrivKeySigner.raw_signature
  priv_key_signer-BlamesNone staking request =
      let sanity = staking.is_simple_transfer request.unbonding_transaction in
      exec_bind-BlamesNone
        (lift (or_fail (errorf (str "invalid unbonding transaction received for signing")) sanity))
        _ (λ u. or_fail-BlamesNone _ sanity)
        λ _.
          exec_bind-BlamesNone
            (exec_or (errorf (str "failed to retrieve covenant key for signing"))
              (Node.dump_private_key rpc request.covenant_address))
            _
            (exec_or-BlamesNone _ (Node.dump_private_key rpc request.covenant_address)
              (dump_private_key-BlamesNone request.covenant_address))
            λ key.
              let signed =
                staking.sign_tx_with_one_script_spend_input_from_tap_leaf
                  request.unbonding_transaction request.staking_output key
                  request.spend_description.script_leaf in
              exec_bind-BlamesNone
                (lift (or_fail (errorf (str "failed to sign transaction")) signed)) _
                (λ u. or_fail-BlamesNone _ signed) λ sig u. ok-BlamesNone _

  -- No error of the private key wallet wraps ErrInvalidSigningRequest.
  pub priv_key_signer_error :
      (staking : Staking btc) (request : SigningRequest btc) (w : W) (e : GoError)
      → (PrivKeySigner.raw_signature staking rpc request w).0 ≡ err e
      → is_invalid_signing_request e ≡ false
  priv_key_signer_error staking request w e h = priv_key_signer-BlamesNone staking request w e h

  module _ (psbt : Psbt btc) where
    set_first_input-BlamesNone :
        (f : PInput psbt.Others → PInput psbt.Others) (packet : Packet psbt.Others psbt.OtherParts)
        → BlamesNone (PsbtSigner.set_first_input psbt f packet)
    unfolding PsbtSigner.set_first_input
    set_first_input-BlamesNone f packet e h = ground arith

    unsigned_packet-BlamesNone :
        (request : SigningRequest btc) → BlamesNone (PsbtSigner.unsigned_packet psbt request)
    unfolding PsbtSigner.unsigned_packet
    unsigned_packet-BlamesNone request =
        let tx = request.unbonding_transaction in
        bind-BlamesNone (first (btc.tx_in tx)) _ (first-BlamesNone (btc.tx_in tx)) λ input.
          let made =
            psbt.new_packet (btc.previous_out_point input ∷ []) (btc.tx_out tx) (btc.version tx)
              (btc.lock_time tx) (psbt.max_tx_in_sequence_num ∷ []) in
          bind-BlamesNone
            (or_fail (errorf (str "failed to create PSBT packet with unbonding transaction")) made)
            _ (or_fail-BlamesNone _ made)
            λ packet.
              bind-BlamesNone (PsbtSigner.set_first_input psbt _ packet) _
                (set_first_input-BlamesNone _ packet)
                λ packet₁.
                  let bytes = btc.control_block_to_bytes request.spend_description.control_block in
                  bind-BlamesNone (or_fail (errorf (str "failed to serialize control block")) bytes)
                    _ (or_fail-BlamesNone _ bytes) λ block. set_first_input-BlamesNone _ packet₁

    packet_signature-BlamesNone :
        (packet : Packet psbt.Others psbt.OtherParts)
        → BlamesNone (PsbtSigner.packet_signature psbt packet)
    unfolding PsbtSigner.packet_signature
    packet_signature-BlamesNone packet =
        bind-BlamesNone (first packet.inputs) _ (first-BlamesNone packet.inputs) λ input.
          bind-BlamesNone (fail_if (length input.taproot_script_spend_sig == 0) _) _
            (fail_if-BlamesNone (length input.taproot_script_spend_sig == 0) _)
            λ _.
              bind-BlamesNone (first input.taproot_script_spend_sig) _
                (first-BlamesNone input.taproot_script_spend_sig)
                λ spend_sig.
                  let sig = btc.parse_signature spend_sig.signature in
                  bind-BlamesNone
                    (or_fail (errorf (str "failed to parse schnorr signature in psbt packet")) sig)
                    _ (or_fail-BlamesNone _ sig) λ s. ok-BlamesNone _

    -- The wallet that signs a PSBT packet
    psbt_signer-BlamesNone :
        (staking : Staking btc) (request : SigningRequest btc) (w : W)
        → BlamesNone (PsbtSigner.raw_signature psbt staking rpc request w).0
    unfolding PsbtSigner.raw_signature
    psbt_signer-BlamesNone staking request =
        let sanity = staking.is_simple_transfer request.unbonding_transaction in
        exec_bind-BlamesNone (lift (or_fail (errorf (str "invalid unbonding transaction")) sanity))
          _ (λ u. or_fail-BlamesNone _ sanity)
          λ _.
            exec_bind-BlamesNone (lift (PsbtSigner.unsigned_packet psbt request)) _
              (λ u. unsigned_packet-BlamesNone request)
              λ packet.
                exec_bind-BlamesNone
                  (exec_or (errorf (str "failed to sign PSBT packet"))
                    (Node.sign_psbt rpc psbt packet))
                  _
                  (exec_or-BlamesNone _ (Node.sign_psbt rpc psbt packet)
                    (sign_psbt-BlamesNone psbt packet))
                  λ signed u. packet_signature-BlamesNone signed

    -- No error of the PSBT wallet wraps ErrInvalidSigningRequest.
    pub psbt_signer_error :
        (staking : Staking btc) (request : SigningRequest btc) (w : W) (e : GoError)
        → (PsbtSigner.raw_signature psbt staking rpc request w).0 ≡ err e
        → is_invalid_signing_request e ≡ false
    psbt_signer_error staking request w e h = psbt_signer-BlamesNone staking request w e h
