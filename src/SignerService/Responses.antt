-- ===== src/SignerService/Responses.antt =====
-- signerservice/http_response.go: from a handler's results to the response. Logging is left out.
pub mod Laws
use covenant_signer.Prelude.{ℕ, Bool, not, if◌then◌else◌, leb}
use covenant_signer.Go.Text.{Bytes, str}
use covenant_signer.Go.Outcome.{message, Outcome, ok, Reply, answer, failure}
use covenant_signer.Go.Exec.{Exec, lift, ◌>>=◌}
use covenant_signer.SignerService.Types.{Error, internal_service_error}
use covenant_signer.SignerService.Http.{
  Request, Response, http_error, has_status_text, ErrorResponse, Payload, error_response, Json,
}
use covenant_signer.SignerService.Handlers.{Handled, result, failed, Result}

unfoldable pub new_internal_service_error_response : ErrorResponse
unfolding internal_service_error
new_internal_service_error_response = record {
  error_code = internal_service_error;
  message = str "Internal service error";
}

-- A status code that net/http does not know becomes 500, and a 5xx hides its text.
unfoldable pub error_status : Error → ℕ
error_status e = if not (has_status_text e.status_code) then 500 else e.status_code

unfoldable pub error_response_of : Error → ErrorResponse
unfolding error_status
error_response_of e = record {
  error_code = e.error_code;
  message = if leb 500 (error_status e) then str "Internal service error" else message e.err;
}

-- What is written for the result of `json.Marshal`
unfoldable pub write_marshalled : ℕ → Reply Bytes → Response
unfolding http_error
write_marshalled status_code (answer bytes) = record {
  status = status_code;
  content_type = str "application/json";
  body = bytes;
}
write_marshalled status_code (failure text) =
    http_error (str "Failed to process the request. Please try again later.") 500

module _ (json : Json) where
  unfoldable pub write_response : ℕ → Payload → Response
  unfolding write_marshalled
  write_response status_code res = write_marshalled status_code (json.marshal res)

  unfoldable pub respond : Handled Result → Response
  unfolding write_response error_status error_response_of new_internal_service_error_response
  respond (failed e) = write_response (error_status e) (error_response (error_response_of e))
  respond (result r) =
      if not (has_status_text r.status)
      then write_response 500 (error_response new_internal_service_error_response)
      else write_response r.status r.content

  -- `registerHandler`
  unfoldable pub register_handler :
      {S : Type 0} → (Request → Exec S (Handled Result)) → Request → Exec S Response
  unfolding respond
  register_handler handler_func r = do handled ← handler_func r; lift (ok (respond handled))
