-- ===== src/Tests/Chain.antt =====
-- A small chain for the runs: hashes are numbers, there are four keys, and a signature is the key
-- that it is valid for.
use covenant_signer.Prelude.{
  ℕ, ◌≡◌, refl, Bool, true, List, [], ◌∷◌, if◌then◌else◌, ◌==◌, ◌&&◌, ltb, arith,
}
use covenant_signer.Prelude.Int.{ℤ, pos, negsuc, IsUint32}
use covenant_signer.Go.Text.{Bytes}
use covenant_signer.Go.Outcome.{Reply, answer, failure}
use covenant_signer.Btc.{Btc, Staking, TxOut, OutPointOf, ParsedV0StakingTx}
use covenant_signer.SignerApp.Signer.Approval.{StakingLaws}

pub record ToyTx : Type 0 where
  pub inputs : List (OutPointOf ℕ)
  pub outputs : List TxOut

pub data ToyKey : Type 0 where
  staker provider covenant_1 covenant_2 : ToyKey

abbrev pub key_byte : ToyKey → ℕ
key_byte covenant_1 = 1
key_byte covenant_2 = 2
key_byte staker = 7
key_byte provider = 8

abbrev pub key_of : ℕ → Reply ToyKey
key_of b =
    if b == 1
    then answer covenant_1
    else if b == 2
    then answer covenant_2
    else if b == 7
    then answer staker
    else if b == 8
    then answer provider
    else failure []

abbrev pub read_key : Bytes → Reply ToyKey
read_key (b ∷ []) = key_of b
read_key _ = failure []

-- A number as its only byte.
abbrev pub read_one : Bytes → Reply ℕ
read_one (b ∷ []) = answer b
read_one _ = failure []

-- A serialized transaction: the index of its input, and the value and the script of its output.
abbrev pub read_tx : Bytes → Reply ToyTx
read_tx (hash ∷ index ∷ value ∷ script) = answer (record {
  inputs = record { hash = hash; index = index } ∷ [];
  outputs = record { value = pos value; pk_script = script } ∷ [];
})
read_tx _ = failure []

-- Only numbers below 256 are written.
abbrev pub all_bytes : Bytes → Bool
all_bytes [] = true
all_bytes (b ∷ bs) = ltb b 256 && all_bytes bs

abbrev pub write_checked : Bytes → Reply Bytes
write_checked b = if all_bytes b then answer b else failure []

abbrev pub write_out : OutPointOf ℕ → ℤ → Bytes → Reply Bytes
write_out i (pos v) script = write_checked (i.hash ∷ i.index ∷ v ∷ script)
write_out i (negsuc v) script = failure []

abbrev pub write_tx : List (OutPointOf ℕ) → List TxOut → Reply Bytes
write_tx (i ∷ []) (o ∷ []) = write_out i o.value o.pk_script
write_tx _ _ = failure []

abbrev pub toy_btc : Btc
toy_btc = record {
  PublicKey = ToyKey;
  PrivateKey = ToyKey;
  Signature = ToyKey;
  Hash = ℕ;
  Address = ℕ;
  Network = ℕ;
  MsgTx = ToyTx;
  TxIn = OutPointOf ℕ;
  PkScript = ℕ;
  ControlBlock = ℕ;
  is_equal = λ a b. key_byte a == key_byte b;
  serialize_compressed = λ k. key_byte k ∷ [];
  parse_pub_key = read_key;
  parse_schnorr_pub_key = read_key;
  serialize_signature = λ s. key_byte s ∷ [];
  parse_signature = read_key;
  hash_string = λ h. h ∷ [];
  tx_in = λ tx. tx.inputs;
  tx_out = λ tx. tx.outputs;
  version = λ tx. pos 2;
  lock_time = λ tx. 0;
  previous_out_point = λ i. i;
  new_tx_in = λ p. p;
  deserialize_tx = read_tx;
  serialize_tx = λ tx. write_tx tx.inputs tx.outputs;
  hash160 = λ b. b;
  new_address_witness_pub_key_hash = λ b net. read_one b;
  parse_pk_script = read_one;
  class = λ s. s;
  witness_v1_taproot_ty = 5;
  control_block_to_bytes = λ b. answer (b ∷ []);
}

abbrev pub sanity : List (OutPointOf ℕ) → List TxOut → Reply (Unit {0})
sanity (i ∷ []) (o ∷ []) = answer tt
sanity _ _ = failure []

-- A staking transaction is one with an output; the staking time is 100 blocks.
abbrev pub read_staking : List TxOut → Reply (ParsedV0StakingTx toy_btc)
read_staking [] = failure []
read_staking (o ∷ os) = answer (record {
  staking_output = o;
  staking_output_idx = pos 0;
  staker_public_key = staker;
  finality_provider_public_key = provider;
  staking_time = 100;
})

abbrev pub verify : ToyKey → Bytes → Reply (Unit {0})
verify key (s ∷ []) = if s == key_byte key then answer tt else failure []
verify key _ = failure []

abbrev pub toy_staking : Staking toy_btc
toy_staking = record {
  UnbondingInfo = TxOut;
  StakingInfo = ℕ;
  check_pre_signed_unbonding_tx_sanity = λ tx. sanity tx.inputs tx.outputs;
  is_simple_transfer = λ tx. sanity tx.inputs tx.outputs;
  parse_v0_staking_tx = λ tx tag keys quorum net. read_staking tx.outputs;
  build_unbonding_info = λ key fps keys quorum time value net.
      answer (record { value = value; pk_script = time ∷ [] });
  unbonding_output = λ o. o;
  build_staking_info = λ key fps keys quorum time value net. answer time;
  unbonding_path_spend_info = λ info. answer (record {
    control_block = 3;
    revealed_leaf = record { leaf_version = 192; script = info ∷ [] };
  });
  verify_transaction_sig_with_output = λ tx o script key sig. verify key sig;
  sign_tx_with_one_script_spend_input_from_tap_leaf = λ tx o key leaf. answer key;
}

sanity-inputs :
    (is : List (OutPointOf ℕ)) (os : List TxOut)
    → sanity is os ≡ answer tt
    → (i : OutPointOf ℕ) × (is ≡ i ∷ [])
sanity-inputs (i ∷ []) (o ∷ []) h = (i, refl)
sanity-inputs [] os h = cc
sanity-inputs (i ∷ []) [] h = cc
sanity-inputs (i ∷ []) (o ∷ p ∷ os) h = cc
sanity-inputs (i ∷ j ∷ is) os h = cc

sanity-outputs :
    (is : List (OutPointOf ℕ)) (os : List TxOut)
    → sanity is os ≡ answer tt
    → (o : TxOut) × (os ≡ o ∷ [])
sanity-outputs (i ∷ []) (o ∷ []) h = (o, refl)
sanity-outputs [] os h = cc
sanity-outputs (i ∷ []) [] h = cc
sanity-outputs (i ∷ []) (o ∷ p ∷ os) h = cc
sanity-outputs (i ∷ j ∷ is) os h = cc

read_staking-idx :
    (os : List TxOut) (parsed : ParsedV0StakingTx toy_btc)
    → read_staking os ≡ answer parsed
    → (n : ℕ) × (parsed.staking_output_idx ≡ pos n) × IsUint32 n
read_staking-idx [] parsed h = cc
read_staking-idx (o ∷ os) parsed h = (0, ground arith, omega arith)

pub toy_laws : StakingLaws toy_staking
toy_laws = record {
  one_input = λ tx h. sanity-inputs tx.inputs tx.outputs h;
  one_output = λ tx h. sanity-outputs tx.inputs tx.outputs h;
  output_idx = λ tx tag keys quorum net parsed h. read_staking-idx tx.outputs parsed h;
}
