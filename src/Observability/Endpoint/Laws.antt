-- ===== src/Observability/Endpoint/Laws.antt =====
-- What the endpoint of a new signer exposes.
use covenant_signer.Prelude.{◌≡◌, refl, List, [], ◌∷◌, bytes_equal}
use covenant_signer.Go.Text.{GoString, str}
use covenant_signer.Go.Outcome.{ok}
use covenant_signer.Observability.Registry.{
  Collector, counter, build_info_collector, go_collector, Prometheus,
}
use covenant_signer.Observability.Registry.Laws.{RegistryLaws, must_register_lem}
use covenant_signer.Observability.Metrics.{
  no_requests, received_opts, successful_opts, failed_opts, new_covenant_signer_metrics,
}
use covenant_signer.Observability.Endpoint.{MetricsServer, endpoint, metrics_server}

abbrev pub signing_counters : List Collector
signing_counters = counter failed_opts ∷ counter successful_opts ∷ counter received_opts ∷ []

abbrev pub exposed : List Collector
exposed = go_collector (str "/.*") ∷ build_info_collector ∷ signing_counters

module _ (p : Prometheus) (laws : RegistryLaws p) where
  new_covenant_signer_metrics-collectors :
      (reg : p.Registry) × (new_covenant_signer_metrics p ≡ ok (reg, no_requests))
      × (laws.collectors reg ≡ signing_counters)
  unfolding new_covenant_signer_metrics bytes_equal str
  new_covenant_signer_metrics-collectors =
      let (r₁, e₁, c₁) =
        must_register_lem p laws (counter received_opts) p.new_registry [] laws.new_registry_lem
          tt in
      let (r₂, e₂, c₂) = must_register_lem p laws (counter successful_opts) r₁ _ c₁ (refl, tt) in
      let (r₃, e₃, c₃) =
        must_register_lem p laws (counter failed_opts) r₂ _ c₂ (refl, (refl, tt)) in
      (r₃, rw (e₁, e₂, e₃) refl, c₃)

  metrics_server-collectors :
      (addr : GoString) (reg : p.Registry)
      → laws.collectors reg ≡ signing_counters
      → (server : MetricsServer p.Registry) × (metrics_server p addr reg ≡ ok server)
        × (laws.collectors server.registry ≡ exposed)
  unfolding metrics_server str
  metrics_server-collectors addr reg has =
      let (r₁, e₁, c₁) =
        must_register_lem p laws build_info_collector reg _ has (refl, (refl, (refl, tt))) in
      let (r₂, e₂, c₂) =
        must_register_lem p laws (go_collector (str "/.*")) r₁ _ c₁
          (refl, (refl, (refl, (refl, tt)))) in
      (endpoint addr r₂, rw (e₁, e₂) refl, c₂)

  -- If a registry takes every collector whose names are new, then neither the counters nor the
  -- endpoint's collectors are refused: the endpoint of a new signer is made, at any address, and
  -- its registry has exactly the three counters and the two collectors for Go.
  pub metrics_server-exposed :
      (addr : GoString)
      → (reg : p.Registry) × (new_covenant_signer_metrics p ≡ ok (reg, no_requests))
        × (server : MetricsServer p.Registry) × (metrics_server p addr reg ≡ ok server)
        × (laws.collectors server.registry ≡ exposed)
  metrics_server-exposed addr =
      let (reg, made, has) = new_covenant_signer_metrics-collectors in
      let (server, starts, exposes) = metrics_server-collectors addr reg has in
      (reg, made, server, starts, exposes)
