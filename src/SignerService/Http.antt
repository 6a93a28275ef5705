-- ===== src/SignerService/Http.antt =====
-- What the service takes of net/http and encoding/json. Status texts, `http.Error` and
-- `http.MaxBytesReader` are modelled; the JSON codec is a parameter.
use covenant_signer.Prelude.{ℕ, Bool, ◌&&◌, ◌||◌, Option, some, [], ◌∷◌, ◌++◌, leb, ◌==◌}
use covenant_signer.Prelude.Int.{ℤ}
use covenant_signer.Go.Text.{GoString, Bytes, str}
use covenant_signer.Go.Outcome.{Reply}
use covenant_signer.Observability.Tracing.{Context}
use covenant_signer.SignerService.Types.{SignUnbondingTxRequest, SignUnbondingTxResponse}

-- A body, and the number of bytes that `http.MaxBytesReader` lets a reader have of it.
pub record Body : Type 0 where
  pub content : Bytes
  pub limit : Option ℕ

-- ContentLength is -1 where the length is not declared.
pub record Request : Type 0 where
  pub method : GoString
  pub path : GoString
  pub context : Context
  pub content_length : ℤ
  pub body : Body

pub record Response : Type 0 where
  pub status : ℕ
  pub content_type : GoString
  pub body : Bytes

-- `http.MaxBytesReader(w, body, max)`
unfoldable pub max_bytes_reader : ℕ → Body → Body
max_bytes_reader max body = record body { limit = some max }

-- `http.Error(w, text, code)`
unfoldable pub http_error : GoString → ℕ → Response
http_error text code = record {
  status = code;
  content_type = str "text/plain; charset=utf-8";
  body = text ++ b'\n' ∷ [];
}

-- `http.StatusText(code) != ""`
unfoldable pub has_status_text : ℕ → Bool
has_status_text code =
    leb 100 code && leb code 103
    || leb 200 code && leb code 208
    || code == 226
    || leb 300 code && leb code 305
    || leb 307 code && leb code 308
    || leb 400 code && leb code 418
    || leb 421 code && leb code 426
    || leb 428 code && leb code 429
    || code == 431
    || code == 451
    || leb 500 code && leb code 508
    || leb 510 code && leb code 511

-- signerservice/http_response.go: `ErrorResponse`
pub record ErrorResponse : Type 0 where
  pub error_code : GoString
  pub message : GoString

-- What a response carries: a `PublicResponse` or an `ErrorResponse`.
pub data Payload : Type 0 where
  public_response : SignUnbondingTxResponse → Payload
  error_response : ErrorResponse → Payload

-- encoding/json at the types of the service. A decoder reads the first value of a body.
pub record Json : Type 0 where
  pub marshal_request : SignUnbondingTxRequest → Reply Bytes
  pub decode_request : Body → Reply SignUnbondingTxRequest
  pub marshal : Payload → Reply Bytes
  pub unmarshal_response : Bytes → Reply SignUnbondingTxResponse
