-- ===== src/Tests/Calls.antt =====
-- Two calls at once: the first is signed while the other, the transaction of which the node does not
-- know, has begun.
use covenant_signer.Prelude.{subst, bytes_equal, ◌≡◌, refl, List, [], ◌∷◌}
use covenant_signer.Go.Outcome.{Outcome, ok, first}
use covenant_signer.SignerApp.Asked.{Asks}
use covenant_signer.SignerApp.Calls.{
  Job, Call, begins, has_info, has_best, has_params, Next, continues, returns, advance,
}
use covenant_signer.SignerApp.Calls.Sound.{WasApproved}
use covenant_signer.SignerApp.Calls.Concurrent.{
  Calls, idle, moved, Step, arrives, advances, Run, still, then, Run-Asks,
}
use covenant_signer.SignerApp.Signer.Checks.{
  check_request, check_inclusion_height, signing_request, check_covenant_member,
  check_confirmations, confirmations, check_output_index, check_staking_time, check_staking_amount,
  unbonding_value, check_unbonding_output, unbonding_path, check_staker_signature,
  pub_key_to_address, outputs_are_equal, is_covenant_member,
}
use covenant_signer.Tests.Chain.{toy_btc, toy_staking, toy_laws, covenant_2, staker}
use covenant_signer.Tests.Lifetime.{World, diary, diary_laws}
use covenant_signer.Tests.Signing.{
  app_with, ranges_with, unbonding_tx, staking_info, params, request,
}

abbrev job : Job toy_btc
job = record {
  pk_script = 5 ∷ [];
  unbonding_tx = unbonding_tx;
  staker_sig = staker;
  key = covenant_2;
}

abbrev at : List (Call toy_btc) → World → Calls toy_btc World
at calls w = record { world = w; calls = calls }

abbrev go : Call toy_btc → World → Outcome (Next toy_btc) × World
go c w = advance toy_staking (app_with diary) c w

first_piece : go (begins job) [] ≡ (ok (continues (has_info job staking_info)), [])
unfolding advance check_request first check_inclusion_height
first_piece = refl

second_piece :
    go (has_info job staking_info) [] ≡ (ok (continues (has_best job staking_info 105)), [])
unfolding advance
second_piece = refl

third_piece :
    go (has_best job staking_info 105) []
    ≡ (ok (continues (has_params job staking_info 105 params)), [])
unfolding advance
third_piece = refl

last_piece :
    go (has_params job staking_info 105 params) [] ≡ (ok (returns covenant_2), request ∷ [])
unfolding advance signing_request check_covenant_member check_confirmations confirmations
    check_output_index check_staking_time check_staking_amount unbonding_value
    check_unbonding_output unbonding_path check_staker_signature pub_key_to_address
    outputs_are_equal is_covenant_member bytes_equal
last_piece = refl

-- The other call stays at its beginning.
abbrev Steps : Calls toy_btc World → Calls toy_btc World → Type 0
Steps = Step toy_staking (app_with diary) (λ w. w)

abbrev Runs : Calls toy_btc World → Calls toy_btc World → Type 0
Runs = Run toy_staking (app_with diary) (λ w. w)

piece :
    (c : Call toy_btc) (w : World) (x : Outcome (Next toy_btc) × World)
    → go c w ≡ x
    → Steps (at (begins job ∷ c ∷ []) w) (moved (begins job ∷ []) [] x)
piece c w x e =
    subst (λ y. Steps (at (begins job ∷ c ∷ []) w) (moved (begins job ∷ []) [] y)) e
      (advances (begins job ∷ []) c [] (at (begins job ∷ c ∷ []) w) refl)

next : (t u v : Calls toy_btc World) → Steps u v → Runs t u → Runs t v
next t u v step run = then t u v run step

two_begun : Runs (idle []) (at (begins job ∷ begins job ∷ []) [])
two_begun =
    then (idle []) (at (begins job ∷ []) []) _
      (then (idle []) (idle []) _ (still (idle [])) (arrives job (idle [])))
      (arrives job (at (begins job ∷ []) []))

one_signed : Runs (idle []) (at (begins job ∷ []) (request ∷ []))
one_signed = next (idle []) _ _ (piece (has_params job staking_info 105 params) [] _ last_piece) (
    next (idle []) _ _ (piece (has_best job staking_info 105) [] _ third_piece) (
      next (idle []) _ _ (piece (has_info job staking_info) [] _ second_piece)
        (next (idle []) _ _ (piece (begins job) [] _ first_piece) two_begun)))

Run-Asks_example : Asks (λ w. w) (WasApproved toy_staking (app_with diary)) [] (request ∷ [])
Run-Asks_example =
    Run-Asks toy_staking (app_with diary) (λ w. w) diary_laws toy_laws (ranges_with diary) []
      (at (begins job ∷ []) (request ∷ [])) one_signed
