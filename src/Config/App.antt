-- ===== src/Config/App.antt =====
-- config/appconfig.go
use covenant_signer.Prelude.{ℕ, ◌-◌, ◌^◌, ◌++◌, if◌then◌else◌}
use covenant_signer.Prelude.Int.{ℤ, pos, ltb_ℤ, to_uint32}
use covenant_signer.Go.Text.{str, decimal}
use covenant_signer.Go.Outcome.{Outcome, ok, err, new}

-- An `int` as read from the file.
pub record SignerAppConfig : Type 0 where
  pub max_staking_transaction_height : ℤ

-- A `uint32`.
pub record ParsedSignerAppConfig : Type 0 where
  pub max_staking_transaction_height : ℕ

-- `math.MaxUint32`
abbrev pub max_uint32 : ℕ
max_uint32 = 2 ^ 32 - 1

unfoldable pub parse : SignerAppConfig → Outcome ParsedSignerAppConfig
unfolding to_uint32
parse c =
    if ltb_ℤ c.max_staking_transaction_height (pos 0)
    then err (new (str "max staking transaction height is too small. Min value is 0"))
    else if ltb_ℤ (pos max_uint32) c.max_staking_transaction_height
    then err (
        new
          (str "max staking transaction height is too large. Max value is " ++ decimal max_uint32))
    else ok (record { max_staking_transaction_height = to_uint32 c.max_staking_transaction_height })

unfoldable pub default_signer_app_config : SignerAppConfig
default_signer_app_config = record { max_staking_transaction_height = pos max_uint32 }
