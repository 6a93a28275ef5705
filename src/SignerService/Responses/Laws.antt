-- ===== src/SignerService/Responses/Laws.antt =====
-- The statuses of responses, and what a 5xx response lets out.
use covenant_signer.Prelude.{ℕ, ◌≤◌, ◌≡◌, refl, ◌⊎◌, inl, inr, arith, true, Bool-cases, leb}
use covenant_signer.Go.Outcome.{GoError, Reply, answer, failure}
use covenant_signer.Go.Text.{GoString, Bytes}
use covenant_signer.SignerService.Types.{Error}
use covenant_signer.SignerService.Http.{http_error, has_status_text, error_response, Json}
use covenant_signer.SignerService.Handlers.{Handled, result, failed, Result}
use covenant_signer.SignerService.Responses.{
  write_marshalled, error_status, error_response_of, respond, new_internal_service_error_response,
}

known-500 : has_status_text 500 ≡ true
unfolding has_status_text
known-500 = refl

-- The error's status is one that net/http knows.
error_status-known : (e : Error) → has_status_text (error_status e) ≡ true
unfolding error_status has_status_text
error_status-known e = elim (Bool-cases (has_status_text e.status_code)) [
  | inl known ↦ rw known known
  | inr unknown ↦ rw unknown
]

write_marshalled-known :
    (status : ℕ) (r : Reply Bytes)
    → has_status_text status ≡ true
    → has_status_text (write_marshalled status r).status ≡ true
unfolding write_marshalled http_error has_status_text
write_marshalled-known status (answer bytes) h = h
write_marshalled-known status (failure text) h = refl

error_status-ge : (e : Error) → 500 ≤ e.status_code → leb 500 (error_status e) ≡ true
unfolding error_status
error_status-ge e h = ground arith

refused-200 :
    (e : Error)
    → (e.status_code ≡ 400) ⊎ (e.status_code ≡ 500)
    → (r : Reply Bytes) → (write_marshalled (error_status e) r).status ≡ 200
    → ⊥
unfolding error_status has_status_text write_marshalled http_error
refused-200 e (inl c) (answer bytes) h = let h' = rw c at h in omega arith
refused-200 e (inr c) (answer bytes) h = let h' = rw c at h in omega arith
refused-200 e c (failure text) h = omega arith

module _ (json : Json) where
  -- Every response has a status that net/http knows, whatever status the handler's result or
  -- error names.
  pub respond-known : (h : Handled Result) → has_status_text (respond json h).status ≡ true
  unfolding respond
  respond-known (failed e) = write_marshalled-known (error_status e) _ (error_status-known e)
  respond-known (result r) = elim (Bool-cases (has_status_text r.status)) [
    | inl known ↦ rw known (write_marshalled-known r.status (json.marshal r.content) known)
    | inr unknown ↦ rw unknown (
        write_marshalled-known 500
          (json.marshal (error_response new_internal_service_error_response)) known-500)
  ]

  -- The response to an error with a status from 500 on does not depend on the error's text.
  pub respond-hides :
      (code : GoString) (status : ℕ) (e f : GoError)
      → 500 ≤ status
      → respond json (failed (record { err = e; status_code = status; error_code = code }))
        ≡ respond json (failed (record { err = f; status_code = status; error_code = code }))
  unfolding respond error_response_of error_status
  respond-hides code status e f h =
      rw (error_status-ge (record { err = e; status_code = status; error_code = code }) h)

  -- Only the success of a handler is written with status 200.
  pub respond-200 :
      (h : Handled Result)
      → ((e : Error) → h ≡ failed e → (e.status_code ≡ 400) ⊎ (e.status_code ≡ 500))
      → (respond json h).status ≡ 200
      → (r : Result) × (h ≡ result r)
  unfolding respond
  respond-200 (result r) codes h = (r, refl)
  respond-200 (failed e) codes h =
      absurd (refused-200 e (codes e refl) (json.marshal (error_response (error_response_of e))) h)
