-- ===== src/SignerService/Middlewares.antt =====
-- signerservice/middlewares. The log, the clock and the source of UUIDs are parameters.
use covenant_signer.Prelude.{ℕ, Option, if◌then◌else◌}
use covenant_signer.Prelude.Int.{ℤ, pos, ltb_ℤ}
use covenant_signer.Go.Text.{GoString, str}
use covenant_signer.Go.Outcome.{Outcome, ok, err, panicked}
use covenant_signer.Go.Exec.{Exec, lift}
use covenant_signer.Observability.Tracing.{
  Logger, TracingInfo, with_logger, trace_id_of, trace_info_of, attach_tracing_into_context,
}
use covenant_signer.SignerService.Http.{Request, Response, max_bytes_reader, http_error}

abbrev pub Handler : Type 0 → Type 0
Handler S = Request → Exec S Response

-- content_length.go
unfoldable pub content_length_middleware : {S : Type 0} → ℕ → Handler S → Handler S
unfolding max_bytes_reader http_error
content_length_middleware max_bytes h r =
    if ltb_ℤ (pos max_bytes) r.content_length
    then lift (ok (http_error (str "Request Entity Too Large") 413))
    else h (record r { body = max_bytes_reader max_bytes r.body })

-- The lines that logging.go writes: with the logger's fields, the second with the tracing
-- information and the duration.
pub data LogLine : Type 0 where
  request_received : Logger → LogLine
  request_completed : Logger → Option TracingInfo → ℤ → LogLine

-- zerolog's writer, uuid.New, time.Now, and the milliseconds of time.Since.
pub record Instruments (S : Type 0) : Type 0 where
  pub write_line : LogLine → S → S
  pub new_uuid : S → GoString × S
  pub start_clock : S → ℤ × S
  pub milliseconds_since : ℤ → S → ℤ × S

module _ {S : Type 0} (i : Instruments S) where
  -- tracing.go
  unfoldable pub tracing_middleware : Handler S → Handler S
  unfolding attach_tracing_into_context
  tracing_middleware next r s =
      let (trace_id, s₁) = i.new_uuid s in
      next (record r { context = attach_tracing_into_context trace_id r.context }) s₁

  -- logging.go: what follows the next handler. A panic leaves the middleware before it.
  unfoldable pub log_completed : Request → Logger → ℤ → Outcome Response × S → Outcome Response × S
  unfolding trace_info_of
  log_completed r logger start_time (ok res, s) =
      let (duration, s₁) = i.milliseconds_since start_time s in
      (ok res, i.write_line (request_completed logger (trace_info_of r.context) duration) s₁)
  log_completed r logger start_time (err e, s) = (err e, s)
  log_completed r logger start_time (panicked t, s) = (panicked t, s)

  unfoldable pub logging_middleware : Handler S → Handler S
  unfolding log_completed trace_id_of
  logging_middleware next r s =
      let (start_time, s₁) = i.start_clock s in
      let logger : Logger = record { path = r.path; trace_id = trace_id_of r.context } in
      let r' : Request = record r { context = with_logger logger r.context } in
      log_completed r' logger start_time (next r' (i.write_line (request_received logger) s₁))
