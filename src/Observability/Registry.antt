-- ===== src/Observability/Registry.antt =====
-- What observability/metrics takes of prometheus: a registry of collectors, as a parameter.
pub mod Laws
use covenant_signer.Go.Text.{GoString}
use covenant_signer.Go.Outcome.{Outcome, ok, panicked, Reply, answer, failure}

pub record CounterOpts : Type 0 where
  pub name : GoString
  pub help : GoString

-- The collectors that the program registers
pub data Collector : Type 0 where
  counter : CounterOpts → Collector
  build_info_collector : Collector
  -- with the runtime metrics that match
  go_collector : GoString → Collector

pub record Prometheus : Type 1 where
  pub Registry : Type 0
  pub new_registry : Registry
  -- `Registry.Register`, which refuses a collector that it has
  pub register : Collector → Registry → Reply Registry

abbrev pub must : {R : Type 0} → Reply R → Outcome R
must (answer reg) = ok reg
must (failure text) = panicked text

-- `Registry.MustRegister`, which promauto's `NewCounter` calls too
unfoldable pub must_register : (p : Prometheus) → Collector → p.Registry → Outcome p.Registry
must_register p collector reg = must (p.register collector reg)
