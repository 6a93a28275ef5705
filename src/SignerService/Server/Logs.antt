-- ===== src/SignerService/Server/Logs.antt =====
-- signerservice/server.go, signerservice/middlewares: what the tracing and the logging middlewares
-- put around a handler.
use covenant_signer.Prelude.{◌≡◌, refl, ap, ◌∙◌, some, []}
use covenant_signer.Prelude.Int.{ℤ}
use covenant_signer.Go.Text.{GoString}
use covenant_signer.Go.Outcome.{Outcome, ok, err, panicked}
use covenant_signer.Go.Exec.{Exec}
use covenant_signer.Observability.Tracing.{
  Logger, with_logger, trace_info_of, attach_tracing_into_context,
}
use covenant_signer.SignerService.Http.{Request, Response}
use covenant_signer.SignerService.Middlewares.{
  Instruments, LogLine, request_received, request_completed, log_completed,
}

module _ {S : Type 0} (i : Instruments S) where
  -- A request with its log: a line when it is received and, unless its handling panics, one when it
  -- is completed, both with its path and the same new trace id.
  abbrev pub completed : GoString → GoString → ℤ → Outcome Response × S → Outcome Response × S
  completed path trace_id start_time (ok res, s) =
      let (duration, s₁) = i.milliseconds_since start_time s in
      let logger : Logger = record { path = path; trace_id = some trace_id } in
      (
        ok res,
        i.write_line (request_completed logger (some (record { span_details = [] })) duration) s₁,
      )
  completed path trace_id start_time (err e, s) = (err e, s)
  completed path trace_id start_time (panicked t, s) = (panicked t, s)

  -- The state in which the request reaches the handlers inside
  abbrev pub opened : GoString → S → S
  opened path s =
      let (trace_id, s₁) = i.new_uuid s in
      let (start_time, s₂) = i.start_clock s₁ in
      i.write_line (request_received (record { path = path; trace_id = some trace_id })) s₂

  completed-eq-ok :
      (path trace_id : GoString) (start_time : ℤ) (x : Outcome Response × S) (res : Response)
      (s' : S)
      → completed path trace_id start_time x ≡ (ok res, s')
      → x ≡ (ok res, x.1)
  completed-eq-ok path trace_id start_time (ok r, s) res s' h = ap (λ k. (k, s)) (ap (λ k. k.0) h)
  completed-eq-ok path trace_id start_time (err e, s) res s' h = cc
  completed-eq-ok path trace_id start_time (panicked t, s) res s' h = cc

  abbrev pub logged : GoString → Exec S Response → Exec S Response
  logged path respond s =
      let (trace_id, s₁) = i.new_uuid s in
      let (start_time, s₂) = i.start_clock s₁ in
      let logger : Logger = record { path = path; trace_id = some trace_id } in
      completed path trace_id start_time (respond (i.write_line (request_received logger) s₂))

  -- What is logged as answered was answered inside.
  pub logged-eq-ok :
      (path : GoString) (respond : Exec S Response) (s : S) (res : Response) (s' : S)
      → logged path respond s ≡ (ok res, s')
      → respond (opened path s) ≡ (ok res, (respond (opened path s)).1)
  logged-eq-ok path respond s res s' h = completed-eq-ok path _ _ (respond (opened path s)) res s' h

  -- The request as the handlers inside see it
  abbrev pub within_logger : Request → S → Request
  within_logger r s =
      let trace_id = (i.new_uuid s).0 in
      record r {
        context =
            with_logger (record { path = r.path; trace_id = some trace_id })
              (attach_tracing_into_context trace_id r.context);
      }

  pub log_completed-completed :
      (r : Request) (path trace_id : GoString) (start_time : ℤ) (x : Outcome Response × S)
      → trace_info_of r.context ≡ some (record { span_details = [] })
      → log_completed i r (record { path = path; trace_id = some trace_id }) start_time x
        ≡ completed path trace_id start_time x
  unfolding log_completed
  log_completed-completed r path trace_id start_time (ok res, s) h = rw h
  log_completed-completed r path trace_id start_time (err e, s) h = refl
  log_completed-completed r path trace_id start_time (panicked t, s) h = refl

-- What the instruments do to the state cannot be seen through `view`.
pub record IsUnseen {S : Type 0} {V : Type 0} (i : Instruments S) (view : S → V) : Type 0 where
  pub write_line : (line : LogLine) (s : S) → view (i.write_line line s) ≡ view s
  pub new_uuid : (s : S) → view (i.new_uuid s).1 ≡ view s
  pub start_clock : (s : S) → view (i.start_clock s).1 ≡ view s
  pub milliseconds_since :
      (start_time : ℤ) (s : S) → view (i.milliseconds_since start_time s).1 ≡ view s

module _ {S : Type 0} {V : Type 0} (i : Instruments S) (view : S → V) (unseen : IsUnseen i view)
    (path : GoString) where
  pub opened-keeps : (s : S) → view (opened i path s) ≡ view s
  opened-keeps s = unseen.write_line _ _ ∙ unseen.start_clock _ ∙ unseen.new_uuid s

  completed-keeps :
      (trace_id : GoString) (start_time : ℤ) (x : Outcome Response × S)
      → view (completed i path trace_id start_time x).1 ≡ view x.1
  completed-keeps trace_id start_time (ok res, s) =
      unseen.write_line _ _ ∙ unseen.milliseconds_since start_time s
  completed-keeps trace_id start_time (err e, s) = refl
  completed-keeps trace_id start_time (panicked t, s) = refl

  pub logged-keeps :
      (respond : Exec S Response) (s : S)
      → view (logged i path respond s).1 ≡ view (respond (opened i path s)).1
  logged-keeps respond s = completed-keeps _ _ (respond (opened i path s))
