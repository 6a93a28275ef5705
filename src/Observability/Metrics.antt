-- ===== src/Observability/Metrics.antt =====
-- observability/metrics/signer.go: the three counters.
use covenant_signer.Prelude.{ℕ, ◌+◌}
use covenant_signer.Go.Text.{str}
use covenant_signer.Go.Outcome.{Outcome, ok, ◌>>=◌}
use covenant_signer.Observability.Registry.{CounterOpts, counter, Prometheus, must_register}

pub record CovenantSignerMetrics : Type 0 where
  pub received_signing_requests : ℕ
  pub successful_signing_requests : ℕ
  pub failed_signing_requests : ℕ

-- New counters stand at zero.
unfoldable pub no_requests : CovenantSignerMetrics
no_requests = record {
  received_signing_requests = 0;
  successful_signing_requests = 0;
  failed_signing_requests = 0;
}

abbrev pub received_opts : CounterOpts
received_opts = record {
  name = str "signer_received_signing_requests";
  help = str "The total number of signing requests received by the signer";
}

abbrev pub successful_opts : CounterOpts
successful_opts = record {
  name = str "signer_succeeded_signing_requests";
  help = str "The total number times the signer successfully responded with a signature";
}

abbrev pub failed_opts : CounterOpts
failed_opts = record {
  name = str "signer_failed_signing_requests";
  help = str "The total number of times signer responded with an internal error";
}

-- The registry, and what the counters show
unfoldable pub new_covenant_signer_metrics :
    (p : Prometheus) → Outcome (p.Registry × CovenantSignerMetrics)
unfolding must_register no_requests
new_covenant_signer_metrics p = do
  reg ← must_register p (counter received_opts) p.new_registry
  reg ← must_register p (counter successful_opts) reg
  reg ← must_register p (counter failed_opts) reg
  ok (reg, no_requests)

unfoldable pub inc_received_signing_requests : CovenantSignerMetrics → CovenantSignerMetrics
inc_received_signing_requests m = record m {
  received_signing_requests = m.received_signing_requests + 1;
}

unfoldable pub inc_successful_signing_requests : CovenantSignerMetrics → CovenantSignerMetrics
inc_successful_signing_requests m = record m {
  successful_signing_requests = m.successful_signing_requests + 1;
}

unfoldable pub inc_failed_signing_requests : CovenantSignerMetrics → CovenantSignerMetrics
inc_failed_signing_requests m = record m { failed_signing_requests = m.failed_signing_requests + 1 }
