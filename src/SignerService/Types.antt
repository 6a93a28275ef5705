-- ===== src/SignerService/Types.antt =====
-- signerservice/types: the payloads and the errors of the service.
use covenant_signer.Prelude.{ℕ, [], ◌==◌, if◌then◌else◌, bytes_equal}
use covenant_signer.Go.Text.{GoString, str}
use covenant_signer.Go.Outcome.{GoError, message, new}

pub record SignUnbondingTxRequest : Type 0 where
  pub staking_output_pk_script_hex : GoString
  pub unbonding_tx_hex : GoString
  pub staker_unbonding_sig_hex : GoString
  pub covenant_public_key : GoString

pub record SignUnbondingTxResponse : Type 0 where
  pub signature_hex : GoString

-- `ErrorCode` and its constants
abbrev pub ErrorCode : Type 0
ErrorCode = GoString

unfoldable pub internal_service_error : ErrorCode
internal_service_error = str "INTERNAL_SERVICE_ERROR"

unfoldable pub validation_error : ErrorCode
validation_error = str "VALIDATION_ERROR"

unfoldable pub not_found : ErrorCode
not_found = str "NOT_FOUND"

unfoldable pub forbidden : ErrorCode
forbidden = str "FORBIDDEN"

unfoldable pub bad_request : ErrorCode
bad_request = str "BAD_REQUEST"

pub record Error : Type 0 where
  pub err : GoError
  pub status_code : ℕ
  pub error_code : ErrorCode

-- `Error.Error`
unfoldable pub error_text : Error → GoString
unfolding message
error_text e = message e.err

unfoldable pub new_error : ℕ → ErrorCode → GoError → Error
unfolding bytes_equal internal_service_error
new_error status_code error_code e = record {
  status_code = if status_code == 0 then 500 else status_code;
  error_code = if bytes_equal error_code [] then internal_service_error else error_code;
  err = e;
}

unfoldable pub new_error_with_msg : ℕ → ErrorCode → GoString → Error
unfolding new_error
new_error_with_msg status_code error_code msg = new_error status_code error_code (new msg)

unfoldable pub new_internal_service_error : GoError → Error
unfolding internal_service_error
new_internal_service_error e = record {
  status_code = 500;
  error_code = internal_service_error;
  err = e;
}
