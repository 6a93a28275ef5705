-- ===== src/Tests/Metrics.antt =====
-- The endpoint over the toy registry.
use covenant_signer.Prelude.{◌≡◌, refl, true, List, [], ◌∷◌, All}
use covenant_signer.Go.Text.{str}
use covenant_signer.Go.Outcome.{ok}
use covenant_signer.Observability.Registry.{Collector}
use covenant_signer.Observability.Registry.Laws.{IsApart, RegistryLaws}
use covenant_signer.Observability.Metrics.{no_requests, new_covenant_signer_metrics}
use covenant_signer.Observability.Endpoint.{MetricsServer, metrics_server}
use covenant_signer.Observability.Endpoint.Laws.{exposed, metrics_server-exposed}
use covenant_signer.Tests.Parts.{all_apart, toy_prometheus}

all_apart_lem : (c : Collector) (ds : List Collector) → All (IsApart c) ds → all_apart c ds ≡ true
all_apart_lem c [] h = refl
all_apart_lem c (d ∷ ds) (here, there) = rw here (all_apart_lem c ds there)

toy_laws : RegistryLaws toy_prometheus
toy_laws = record {
  collectors = λ reg. reg;
  new_registry_lem = refl;
  register_lem = λ c reg apart. (c ∷ reg, rw (all_apart_lem c reg apart) refl, refl);
}

metrics_server-exposed_example :
    (reg : List Collector) × (new_covenant_signer_metrics toy_prometheus ≡ ok (reg, no_requests))
    × (server : MetricsServer (List Collector)) × (metrics_server toy_prometheus
          (str "127.0.0.1:2112")
          reg
        ≡ ok server)
    × (toy_laws.collectors server.registry ≡ exposed)
metrics_server-exposed_example =
    metrics_server-exposed toy_prometheus toy_laws (str "127.0.0.1:2112")
