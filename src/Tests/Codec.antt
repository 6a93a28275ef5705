-- ===== src/Tests/Codec.antt =====
-- A codec for the payloads: each text behind its length.
use covenant_signer.Prelude.{
  ℕ, zero, suc, ◌≤◌, ◌≡◌, refl, ap, sym, ◌∙◌, some, none, List, [], ◌∷◌, ◌++◌, true, arith, All,
  ltb, length, if◌then◌else◌, Bool-cases, inl, inr, Option,
}
use covenant_signer.Prelude.Int.{ℤ, pos, negsuc}
use covenant_signer.Go.Text.{GoString, Bytes}
use covenant_signer.Go.Outcome.{Reply, answer, failure}
use covenant_signer.Go.Hex.Laws.{IsByte}
use covenant_signer.Btc.{TxOut, OutPointOf}
use covenant_signer.SignerService.Types.{SignUnbondingTxRequest}
use covenant_signer.SignerService.Http.{Json, Payload, public_response, error_response}
use covenant_signer.SignerService.Client.Delivery.{CodecLaws}
use covenant_signer.Tests.Chain.{
  ToyTx, ToyKey, staker, provider, covenant_1, covenant_2, toy_btc, key_byte, read_key, read_tx,
  write_tx, write_out, write_checked, all_bytes,
}

answer-injective : {A : Type 0} {a b : A} → answer a ≡ answer b → a ≡ b
answer-injective h = cc

abbrev split : ℕ → List ℕ → List ℕ × List ℕ
split zero xs = ([], xs)
split (suc n) [] = ([], [])
split (suc n) (x ∷ xs) = let (front, rest) = split n xs in (x ∷ front, rest)

split-append : (xs ys : List ℕ) → split (length xs) (xs ++ ys) ≡ (xs, ys)
split-append [] ys = refl
split-append (x ∷ xs) ys = rw (split-append xs ys)

abbrev pack : GoString → Bytes → Bytes
pack s rest = length s ∷ s ++ rest

abbrev unpack : Bytes → GoString × Bytes
unpack [] = ([], [])
unpack (n ∷ xs) = split n xs

abbrev pub write_request : SignUnbondingTxRequest → Bytes
write_request p =
    pack p.staking_output_pk_script_hex
      (pack p.unbonding_tx_hex (pack p.staker_unbonding_sig_hex (pack p.covenant_public_key [])))

abbrev read_request : Bytes → SignUnbondingTxRequest
read_request b =
    let (script, b₁) = unpack b in
    let (tx, b₂) = unpack b₁ in
    let (sig, b₃) = unpack b₂ in
    let (key, b₄) = unpack b₃ in
    record {
      staking_output_pk_script_hex = script;
      unbonding_tx_hex = tx;
      staker_unbonding_sig_hex = sig;
      covenant_public_key = key;
    }

read_write : (p : SignUnbondingTxRequest) → read_request (write_request p) ≡ p
read_write p = rw (
  split-append p.staking_output_pk_script_hex
      (pack p.unbonding_tx_hex (pack p.staker_unbonding_sig_hex (pack p.covenant_public_key []))),
  split-append p.unbonding_tx_hex (pack p.staker_unbonding_sig_hex (pack p.covenant_public_key [])),
  split-append p.staker_unbonding_sig_hex (pack p.covenant_public_key []),
  split-append p.covenant_public_key [],
)

-- A body over its limit does not decode.
abbrev read_limited : Bytes → Option ℕ → Reply SignUnbondingTxRequest
read_limited b none = answer (read_request b)
read_limited b (some limit) = if ltb limit (length b) then failure [] else answer (read_request b)

abbrev write_payload : Payload → Reply Bytes
write_payload (public_response r) = answer r.signature_hex
write_payload (error_response e) = answer (e.error_code ++ e.message)

abbrev pub toy_json : Json
toy_json = record {
  marshal_request = λ p. answer (write_request p);
  decode_request = λ body. read_limited body.content body.limit;
  marshal = write_payload;
  unmarshal_response = λ b. answer (record { signature_hex = b });
}

limited_lem :
    (b : Bytes) (limit : ℕ)
    → length b ≤ limit
    → read_limited b (some limit) ≡ answer (read_request b)
limited_lem b limit h = ground arith

key_roundtrip : (k : ToyKey) → read_key (key_byte k ∷ []) ≡ answer k
key_roundtrip covenant_1 = refl
key_roundtrip covenant_2 = refl
key_roundtrip staker = refl
key_roundtrip provider = refl

key_small : (k : ToyKey) → All IsByte (key_byte k ∷ [])
key_small covenant_1 = (omega arith, tt)
key_small covenant_2 = (omega arith, tt)
key_small staker = (omega arith, tt)
key_small provider = (omega arith, tt)

all_bytes-IsByte : (b : Bytes) → all_bytes b ≡ true → All IsByte b
all_bytes-IsByte [] h = tt
all_bytes-IsByte (x ∷ xs) h = (ground arith, all_bytes-IsByte xs (ground arith))

checked_lem : (bytes b : Bytes) → write_checked bytes ≡ answer b → (b ≡ bytes) × All IsByte b
checked_lem bytes b h = elim (Bool-cases (all_bytes bytes)) [
  | inl small ↦
      let same : bytes ≡ b = let written = rw small at h in cc in
      rw (← same) (refl, all_bytes-IsByte bytes small)
  | inr large ↦ let wrong = rw large at h in cc
]

out_lem :
    (i : OutPointOf ℕ) (value : ℤ) (script b : Bytes)
    → write_out i value script ≡ answer b
    → (read_tx b
        ≡ answer (record {
          inputs = i ∷ [];
          outputs = record { value = value; pk_script = script } ∷ [];
        }))
      × All IsByte b
out_lem i (pos v) script b h =
    let (same, small) = checked_lem (i.hash ∷ i.index ∷ v ∷ script) b h in (rw same refl, small)
out_lem i (negsuc v) script b h = cc

tx_lem :
    (is : List (OutPointOf ℕ)) (os : List TxOut) (b : Bytes)
    → write_tx is os ≡ answer b
    → (read_tx b ≡ answer (record { inputs = is; outputs = os })) × All IsByte b
tx_lem (i ∷ []) (o ∷ []) b h = out_lem i o.value o.pk_script b h
tx_lem [] os b h = cc
tx_lem (i ∷ []) [] b h = cc
tx_lem (i ∷ []) (o ∷ p ∷ os) b h = cc
tx_lem (i ∷ j ∷ is) os b h = cc

pub toy_tx_lem :
    (tx : ToyTx) (b : Bytes)
    → write_tx tx.inputs tx.outputs ≡ answer b
    → (read_tx b ≡ answer tx) × All IsByte b
toy_tx_lem tx b h = tx_lem tx.inputs tx.outputs b h

pub toy_codec : CodecLaws toy_btc toy_json
toy_codec = record {
  key = key_roundtrip;
  key_bytes = key_small;
  signature = key_roundtrip;
  signature_bytes = key_small;
  tx = λ tx b h. (toy_tx_lem tx b h).0;
  tx_bytes = λ tx b h. (toy_tx_lem tx b h).1;
  request = λ p b limit h fits.
      limited_lem b limit fits ∙ ap answer (rw (← answer-injective h) (read_write p));
  response = λ p b h. ap (λ x. answer (record { signature_hex = x })) (sym (answer-injective h));
}
