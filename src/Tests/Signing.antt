-- ===== src/Tests/Signing.antt =====
-- Runs of `SignUnbondingTransaction` on the small chain. The world counts the calls of the wallet.
use covenant_signer.Prelude.{
  ℕ, suc, ◌+◌, ◌≡◌, ◌↔◌, inl, inr, refl, ap, true, false, [], ◌∷◌, if◌then◌else◌, ◌==◌, arith,
  subst, Bool-cases, bytes_equal, ◌≤◌,
}
use covenant_signer.Prelude.Int.{pos, IsUint32}
use covenant_signer.Go.Text.{Bytes}
use covenant_signer.Go.Outcome.{
  new, ok, err, ok-injective, NoPanic, ok-NoPanic, is_invalid_signing_request, first,
}
use covenant_signer.Go.Exec.{Exec}
use covenant_signer.Btc.{ParsedV0StakingTx}
use covenant_signer.SignerApp.Interfaces.{BabylonParams, TxInfo, SigningRequest, ExternalBtcSigner}
use covenant_signer.SignerApp.Signer.{SignerApp, sign_unbonding_transaction}
use covenant_signer.SignerApp.Signer.Checks.{
  wrap_invalid_signing_request_error, check_request, check_inclusion_height, signing_request,
  confirmations, outputs_are_equal, is_covenant_member, check_covenant_member, check_confirmations,
  check_output_index, check_staking_time, check_staking_amount, unbonding_value,
  check_unbonding_output, unbonding_path, check_staker_signature, pub_key_to_address,
}
use covenant_signer.SignerApp.Signer.Approval.{InRange, IsApproved, check_confirmations_iff}
use covenant_signer.SignerApp.Signer.Validation.{Ranges, Validated}
use covenant_signer.SignerApp.Signer.Signing.{
  Signed, Untouched, sign_unbonding_transaction_iff, wallet-Untouched,
}
use covenant_signer.Tests.Chain.{
  ToyTx, staker, provider, covenant_1, covenant_2, toy_btc, toy_staking, toy_laws,
}
use covenant_signer.SignerApp.Signer.Requests.{signing_request_iff}
use covenant_signer.SignerApp.Signer.Panics.{sign-NoPanic}
use covenant_signer.SignerApp.Signer.Errors.{Cause, internal_error-Cause, invalid_error_refutes}

-- The staking transaction pays 250 to its output, and is in block 100.
abbrev pub staking_info : TxInfo toy_btc
staking_info = record {
  tx = record { inputs = []; outputs = record { value = pos 250; pk_script = 5 ∷ [] } ∷ [] };
  tx_inclusion_height = 100;
}

abbrev pub params : BabylonParams toy_btc
params = record {
  covenant_public_keys = covenant_1 ∷ covenant_2 ∷ [];
  covenant_quorum = 1;
  magic_bytes = 1 ∷ 2 ∷ 3 ∷ 4 ∷ [];
  unbonding_time = 50;
  unbonding_fee = pos 50;
  max_staking_amount = pos 1000;
  min_staking_amount = pos 100;
  max_staking_time = 200;
  min_staking_time = 64;
  confirmation_depth = 6;
}

abbrev find_tx : {W : Type 0} → ℕ → Bytes → Exec W (TxInfo toy_btc)
find_tx hash script w = (if hash == 42 then ok staking_info else err (new []), w)

abbrev pub app_with : {W : Type 0} → ExternalBtcSigner toy_btc W → SignerApp toy_btc W
app_with wallet = record {
  s = wallet;
  r = record { tx_by_hash = find_tx; best_block_height = λ w. (ok 105, w) };
  p = record { params_by_height = λ height w. (ok params, w) };
  cfg = record { max_staking_transaction_height = 1000 };
  net = 0;
}

-- The wallet counts its calls.
abbrev pub app : SignerApp toy_btc ℕ
app = app_with (record {
  raw_signature = λ request w. (ok (record { signature = request.covenant_public_key }), suc w);
})

-- It spends the staking output, and pays it less the fee to the unbonding script.
abbrev pub unbonding_tx : ToyTx
unbonding_tx = record {
  inputs = record { hash = 42; index = 0 } ∷ [];
  outputs = record { value = pos 200; pk_script = 50 ∷ [] } ∷ [];
}

abbrev pub request : SigningRequest toy_btc
request = record {
  staking_output = record { value = pos 250; pk_script = 5 ∷ [] };
  unbonding_transaction = unbonding_tx;
  covenant_public_key = covenant_2;
  covenant_address = 2;
  spend_description = record {
    control_block = 3;
    script_leaf = record { leaf_version = 192; script = 100 ∷ [] };
  };
}

pub params-InRange : InRange params
params-InRange = record {
  depth = omega arith;
  fee = (omega arith, omega arith);
  fee_nonneg = omega arith;
  max_amount = (omega arith, omega arith);
  min_nonneg = omega arith;
}

find_tx-info :
    {W : Type 0} (hash : ℕ) (script : Bytes) (w w' : W) (info : TxInfo toy_btc)
    → find_tx hash script w ≡ (ok info, w')
    → staking_info ≡ info
find_tx-info hash script w w' info h = elim (Bool-cases (hash == 42)) [
  | inl found ↦ let found_h = rw found at h in ok-injective (ap (λ x. x.0) found_h)
  | inr missing ↦ let missing_h = rw missing at h in cc
]

find_tx-NoPanic : (hash : ℕ) (script : Bytes) (w : ℕ) → NoPanic (find_tx hash script w).0
find_tx-NoPanic hash script w t h = ground arith

pub ranges_with : {W : Type 0} (wallet : ExternalBtcSigner toy_btc W) → Ranges (app_with wallet)
ranges_with wallet = record {
  height = λ hash script w w' info h.
      subst (λ (i : TxInfo toy_btc). IsUint32 i.tx_inclusion_height)
        (find_tx-info hash script w w' info h) (omega arith);
  best_block = λ w w' best h. subst IsUint32 (ok-injective (ap (λ x. x.0) h)) (omega arith);
  params = λ height w w' ps h. subst InRange (ok-injective (ap (λ x. x.0) h)) params-InRange;
}

ranges : Ranges app
ranges = ranges_with app.s

pub sign_run :
    sign_unbonding_transaction toy_staking app (5 ∷ []) unbonding_tx staker covenant_2 0
    ≡ (ok covenant_2, 1)
unfolding sign_unbonding_transaction check_request first check_inclusion_height signing_request
    check_covenant_member check_confirmations confirmations check_output_index check_staking_time
    check_staking_amount unbonding_value check_unbonding_output unbonding_path
    check_staker_signature pub_key_to_address outputs_are_equal is_covenant_member bytes_equal
sign_run = refl

sign_unbonding_transaction_iff_example :
    (sign_unbonding_transaction toy_staking app (5 ∷ []) unbonding_tx staker covenant_2 0
      ≡ (ok covenant_2, 1))
    ↔ Signed toy_staking app (5 ∷ []) unbonding_tx staker covenant_2 0 covenant_2 1
sign_unbonding_transaction_iff_example =
    sign_unbonding_transaction_iff toy_staking app (5 ∷ []) unbonding_tx staker covenant_2 0
      toy_laws ranges covenant_2 1

wallet-Untouched_example :
    let (r, w') =
      sign_unbonding_transaction toy_staking app (5 ∷ []) unbonding_tx staker covenant_2 0 in
    Untouched toy_staking app
      (5 ∷ [])
      unbonding_tx
      staker
      covenant_2
      0
      toy_laws
      ranges
      (λ w. w)
      (λ _ _ _. refl)
      (λ _. refl)
      (λ _ _. refl)
      r
      w'
wallet-Untouched_example =
    wallet-Untouched toy_staking app (5 ∷ []) unbonding_tx staker covenant_2 0 toy_laws ranges
      (λ w. w) (λ _ _ _. refl) (λ _. refl) (λ _ _. refl)

signing_request_iff_example :
    (signing_request toy_staking 0 unbonding_tx staker covenant_2 staking_info 105 params
      ≡ ok request)
    ↔ IsApproved toy_staking 0 unbonding_tx staker covenant_2 staking_info 105 params request
signing_request_iff_example =
    signing_request_iff toy_staking toy_laws 0 unbonding_tx staker covenant_2 staking_info 105
      params (omega arith) (omega arith) params-InRange request

sign-NoPanic_example :
    NoPanic (sign_unbonding_transaction toy_staking app (5 ∷ []) unbonding_tx staker covenant_2 0).0
sign-NoPanic_example =
    sign-NoPanic toy_staking toy_laws app find_tx-NoPanic (λ u. ok-NoPanic 105)
      (λ height u. ok-NoPanic params)
      (λ r u. ok-NoPanic (record { signature = r.covenant_public_key })) (5 ∷ []) unbonding_tx
      staker covenant_2 0

-- A transaction that spends an unknown one
abbrev stray_tx : ToyTx
stray_tx = record unbonding_tx { inputs = record { hash = 41; index = 0 } ∷ [] }

stray_run :
    (sign_unbonding_transaction toy_staking app (5 ∷ []) stray_tx staker covenant_2 0).0
    ≡ err (new [])
unfolding sign_unbonding_transaction check_request first
stray_run = refl

new-is_internal : is_invalid_signing_request (new []) ≡ false
unfolding is_invalid_signing_request
new-is_internal = refl

internal_error-Cause_example : Cause toy_staking app covenant_2 (5 ∷ []) stray_tx staker 0 (new [])
internal_error-Cause_example =
    internal_error-Cause toy_staking app covenant_2 (5 ∷ []) stray_tx staker 0 toy_laws ranges
      (new []) stray_run new-is_internal

-- A transaction with no input
abbrev empty_tx : ToyTx
empty_tx = record unbonding_tx { inputs = [] }

empty_run :
    (sign_unbonding_transaction toy_staking app (5 ∷ []) empty_tx staker covenant_2 0).0
    ≡ err (wrap_invalid_signing_request_error (new []))
unfolding sign_unbonding_transaction check_request
empty_run = refl

empty-is_invalid : is_invalid_signing_request (wrap_invalid_signing_request_error (new [])) ≡ true
unfolding is_invalid_signing_request wrap_invalid_signing_request_error
empty-is_invalid = refl

invalid_error_refutes_example :
    ¬ Validated toy_staking app (5 ∷ []) empty_tx staker covenant_2 0 request 0
invalid_error_refutes_example =
    invalid_error_refutes toy_staking app covenant_2 (5 ∷ []) empty_tx staker 0 toy_laws ranges
      (λ r u e h. cc) (wrap_invalid_signing_request_error (new [])) empty_run empty-is_invalid
      request 0

check_confirmations_iff_example :
    (check_confirmations 105 staking_info params ≡ ok tt) ↔ (100 + 6 ≤ 105 + 1)
check_confirmations_iff_example =
    check_confirmations_iff 105 staking_info params (omega arith) (omega arith)

abbrev spent : ParsedV0StakingTx toy_btc
spent = record {
  staking_output = record { value = pos 250; pk_script = 5 ∷ [] };
  staking_output_idx = pos 0;
  staker_public_key = staker;
  finality_provider_public_key = provider;
  staking_time = 100;
}
