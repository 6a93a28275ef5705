-- ===== src/Observability/Endpoint.antt =====
-- observability/metrics/prometheus.go: the endpoint of the counters.
pub mod Laws
use covenant_signer.Prelude.{Bool, true, Option, none, some, ◌++◌}
use covenant_signer.Prelude.Int.{ℤ, pos}
use covenant_signer.Go.Text.{GoString, str}
use covenant_signer.Go.Outcome.{Outcome, ok, ◌>>=◌}
use covenant_signer.Go.Exec
use covenant_signer.Go.Exec.{Exec, lift}
use covenant_signer.Observability.Registry.{
  Prometheus, build_info_collector, go_collector, must_register,
}

-- `metricRequestTimeout` and `metricRequestIdleTimeout`, in nanoseconds
abbrev pub metric_request_timeout : ℤ
metric_request_timeout = pos 15_000_000_000

abbrev pub metric_request_idle_timeout : ℤ
metric_request_idle_timeout = pos 30_000_000_000

-- The `http.Server` of the endpoint: it serves the registry at one path.
pub record MetricsServer (Registry : Type 0) : Type 0 where
  pub addr : GoString
  pub path : GoString
  pub registry : Registry
  pub enable_open_metrics : Bool
  pub read_timeout : ℤ
  pub write_timeout : ℤ
  pub idle_timeout : ℤ

abbrev pub endpoint : {R : Type 0} → GoString → R → MetricsServer R
endpoint addr reg = record {
  addr = addr;
  path = str "/metrics";
  registry = reg;
  enable_open_metrics = true;
  read_timeout = metric_request_timeout;
  write_timeout = metric_request_timeout;
  idle_timeout = metric_request_idle_timeout;
}

-- `start` up to `ListenAndServe`
unfoldable pub metrics_server :
    (p : Prometheus) → GoString → p.Registry → Outcome (MetricsServer p.Registry)
unfolding must_register
metrics_server p addr reg = do
  reg ← must_register p build_info_collector reg
  reg ← must_register p (go_collector (str "/.*")) reg
  ok (endpoint addr reg)

-- `http.ErrServerClosed`, or any other error
pub data ListenError : Type 0 where
  server_closed : ListenError
  other : GoString → ListenError

-- How the goroutine of the endpoint ends: `log.Fatal` ends the process.
pub data Ended : Type 0 where
  returned : Ended
  exited : GoString → Ended

abbrev pub ended : GoString → Option ListenError → Ended
ended addr none = returned
ended addr (some server_closed) = returned
ended addr (some (other text)) = exited (str "Error starting metrics server on " ++ addr)

-- `listen` is `ListenAndServe`.
abbrev pub serve_metrics :
    {W R : Type 0} → (MetricsServer R → W → Option ListenError × W) → MetricsServer R → Exec W Ended
serve_metrics listen server w = let (e, w') = listen server w in (ok (ended server.addr e), w')

unfoldable pub start :
    {W : Type 0}
    → (p : Prometheus) → (MetricsServer p.Registry → W → Option ListenError × W)
    → GoString
    → p.Registry
    → Exec W Ended
unfolding metrics_server
start p listen addr reg = Exec.◌>>=◌ (lift (metrics_server p addr reg)) (serve_metrics listen)
