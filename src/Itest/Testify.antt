-- ===== src/Itest/Testify.antt =====
-- What itest takes of stretchr/testify. A requirement that fails ends the test: the caller does not
-- go on, and the outcome is a panic with the text.
use covenant_signer.Prelude.{ℕ, zero, suc, Bool, true, false}
use covenant_signer.Go.Outcome.{Outcome, ok, err, panicked, message}

-- `require.NoError`
abbrev pub require_no_error : {A : Type 0} → Outcome A → Outcome A
require_no_error (ok a) = ok a
require_no_error (err e) = panicked (message e)
require_no_error (panicked t) = panicked t

-- `require.Eventually`: the condition is tried until it holds, as often as there is time for. A
-- condition that ends the test is not tried again.
abbrev pub try_again : {S : Type 0} → (S → Bool × S) → Outcome Bool × S → Bool × S
try_again again (ok true, s) = (true, s)
try_again again (ok false, s) = again s
try_again again (err e, s) = (false, s)
try_again again (panicked t, s) = (false, s)

unfoldable pub eventually : {S : Type 0} → ℕ → (S → Outcome Bool × S) → S → Bool × S
eventually zero condition s = (false, s)
eventually (suc n) condition s = try_again (λ t. eventually n condition t) (condition s)
