-- ===== src/SignerService/Handlers/Interleavings.antt =====
-- signerservice/handlers under concurrent requests. net/http runs the handler of every request in a
-- goroutine of its own; the handlers share the counters, whose increments are atomic, and the world.
-- A run is a sequence of steps: a handler counts the request that it decoded, or it ends with what
-- the signer returned. Between the two the others may have changed the counters and the world, so
-- the outcome of the signer's call is any outcome, in any world.
use covenant_signer.Prelude.{
  ℕ, ◌+◌, ◌≡◌, refl, ap, ◌∙◌, List, [], ◌∷◌, ◌++◌, length, length-append, arith,
}
use covenant_signer.Go.Outcome.{Outcome, ok, err, panicked}
use covenant_signer.Btc.{Btc, Staking}
use covenant_signer.SignerApp.Signer.{SignerApp}
use covenant_signer.Observability.Metrics.{
  CovenantSignerMetrics, inc_received_signing_requests, inc_successful_signing_requests,
  inc_failed_signing_requests,
}
use covenant_signer.SignerService.Http.{Request, Json}
use covenant_signer.SignerService.Handlers.{
  Handling, result, failed, State, Arguments, decode_request, finish, sign_arguments,
  sign_unbonding,
}

-- The counters, the world, the arguments of the requests that are counted and not answered, and the
-- number of handlers that panicked.
pub record Traffic (btc : Btc) (W : Type 0) : Type 0 where
  pub counters : CovenantSignerMetrics
  pub world : W
  pub in_flight : List (Arguments btc)
  pub panics : ℕ

abbrev pub panics_of : {A : Type 0} → Outcome A → ℕ
panics_of (ok a) = 0
panics_of (err e) = 0
panics_of (panicked text) = 1

module _ {btc : Btc} {W : Type 0} where
  abbrev pub arrived : Arguments btc → Traffic btc W → Traffic btc W
  arrived args t = record t {
    counters = inc_received_signing_requests t.counters;
    in_flight = args ∷ t.in_flight;
  }

  -- A handler ends with an outcome of the signer; `rest` is left in flight.
  abbrev pub ended :
      Outcome btc.Signature × W → List (Arguments btc) → Traffic btc W → Traffic btc W
  ended x rest t = record {
    counters = (finish btc t.counters x).1.0;
    world = x.1;
    in_flight = rest;
    panics = panics_of x.0 + t.panics;
  }

  -- Every request received is answered, in flight, or was left by a panic.
  abbrev pub IsAccounted : Traffic btc W → Type 0
  IsAccounted t =
      t.counters.received_signing_requests
      ≡ t.counters.successful_signing_requests
        + t.counters.failed_signing_requests
        + length t.in_flight
        + t.panics

  abbrev pub quiet : CovenantSignerMetrics → W → Traffic btc W
  quiet m w = record { counters = m; world = w; in_flight = []; panics = 0 }

module _ {btc : Btc} where
  length-removed :
      (before : List (Arguments btc)) (args : Arguments btc) (after all : List (Arguments btc))
      → all ≡ before ++ args ∷ after
      → length all ≡ length (before ++ after) + 1
  length-removed before args after all h =
      let size = ap length h ∙ length-append before (args ∷ after) in
      let rest = length-append before after in omega arith

module _ {btc : Btc} (json : Json) {W : Type 0} where
  pub data Step : Traffic btc W → Traffic btc W → Type 0 where
    -- a handler decodes its request and counts it
    arrives :
        (request : Request) (args : Arguments btc) (t : Traffic btc W)
        → decode_request btc json request.body ≡ ok (result args)
        → Step t (arrived args t)
    -- the signer's call of a handler returns, and the handler counts the outcome
    ends :
        (before : List (Arguments btc)) (args : Arguments btc) (after : List (Arguments btc))
        (x : Outcome btc.Signature × W) (t : Traffic btc W)
        → t.in_flight ≡ before ++ args ∷ after
        → Step t (ended x (before ++ after) t)

  pub data Run : Traffic btc W → Traffic btc W → Type 0 where
    still : (t : Traffic btc W) → Run t t
    then : (t u v : Traffic btc W) → Run t u → Step u v → Run t v

  -- The handler has counted its request before it ends.
  ended-IsAccounted :
      (x : Outcome btc.Signature × W) (rest : List (Arguments btc)) (t : Traffic btc W)
      → length t.in_flight ≡ length rest + 1
      → IsAccounted t
      → IsAccounted (ended x rest t)
  unfolding finish inc_successful_signing_requests inc_failed_signing_requests
  ended-IsAccounted (ok sig, w) rest t size a = omega arith
  ended-IsAccounted (err e, w) rest t size a = omega arith
  ended-IsAccounted (panicked text, w) rest t size a = omega arith

  Step-IsAccounted : (t u : Traffic btc W) → Step t u → IsAccounted t → IsAccounted u
  unfolding inc_received_signing_requests
  Step-IsAccounted _ _ (arrives request args t d) a = omega arith
  Step-IsAccounted _ _ (ends before args after x t h) a =
      ended-IsAccounted x (before ++ after) t (length-removed before args after t.in_flight h) a

  -- However the steps of concurrent requests interleave, every request received is counted as
  -- successful or failed, is in flight, or was left by a panic.
  pub Run-IsAccounted : (t u : Traffic btc W) → Run t u → IsAccounted t → IsAccounted u
  Run-IsAccounted _ _ (still t) a = a
  Run-IsAccounted _ _ (then t u v run step) a =
      Step-IsAccounted u v step (Run-IsAccounted t u run a)

module _ {btc : Btc} (staking : Staking btc) (json : Json) {W : Type 0}
    (app : SignerApp btc W) where
  -- One call of the handler, with no other step inside, is a run that leaves the requests in flight.
  abbrev IsRun : Traffic btc W → State W → Type 0
  IsRun t s =
      (u : Traffic btc W) × Run json t u × ((u.counters, u.world) ≡ s) × (u.in_flight ≡ t.in_flight)

  finish-state :
      (m : CovenantSignerMetrics) (x : Outcome btc.Signature × W)
      → ((finish btc m x).1.0, x.1) ≡ (finish btc m x).1
  unfolding finish
  finish-state m (ok sig, w) = refl
  finish-state m (err e, w) = refl
  finish-state m (panicked text, w) = refl

  finish-IsRun :
      (request : Request) (args : Arguments btc) (t : Traffic btc W) (x : Outcome btc.Signature × W)
      → decode_request btc json request.body ≡ ok (result args)
      → IsRun t (finish btc (inc_received_signing_requests t.counters) x).1
  finish-IsRun request args t x d =
      let counted = arrived args t in
      let steps =
        then t counted (ended x t.in_flight counted)
          (then t t counted (still t) (arrives request args t d))
          (ends [] args t.in_flight x counted refl) in
      (ended x t.in_flight counted, steps, finish-state counted.counters x, refl)

  sign_arguments-IsRun :
      (decoded : Handling (Arguments btc)) (request : Request) (t : Traffic btc W)
      → decode_request btc json request.body ≡ decoded
      → IsRun t (sign_arguments staking json app decoded (t.counters, t.world)).1
  unfolding sign_arguments
  sign_arguments-IsRun (err e) request t d = (t, still t, refl, refl)
  sign_arguments-IsRun (panicked text) request t d = (t, still t, refl, refl)
  sign_arguments-IsRun (ok (failed e)) request t d = (t, still t, refl, refl)
  sign_arguments-IsRun (ok (result args)) request t d = finish-IsRun request args t _ d

  -- A call of the handler with nothing in between is a run of the steps of concurrent requests:
  -- it ends with the counters and the world of a run that leaves the requests in flight as they
  -- were.
  sign_unbonding-IsRun :
      (request : Request) (t : Traffic btc W)
      → IsRun t (sign_unbonding staking json app request (t.counters, t.world)).1
  unfolding sign_unbonding
  sign_unbonding-IsRun request t =
      sign_arguments-IsRun (decode_request btc json request.body) request t refl
