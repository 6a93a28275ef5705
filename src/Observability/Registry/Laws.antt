-- ===== src/Observability/Registry/Laws.antt =====
-- What prometheus documents of a registry.
use covenant_signer.Prelude.{
  ◌≡◌, Bool, true, false, List, [], ◌∷◌, ◌==◌, ◌&&◌, bytes_equal, All, not, subst, sym, refl, ap,
  ◌∙◌,
}
use covenant_signer.Go.Text.{GoString}
use covenant_signer.Go.Outcome.{ok, answer}
use covenant_signer.Observability.Registry.{
  Collector, counter, build_info_collector, go_collector, Prometheus, must_register,
}

-- The names of the collectors for Go start with "go_".
abbrev pub is_go_name : GoString → Bool
is_go_name (a ∷ b ∷ c ∷ name) = a == b'g' && b == b'o' && c == b'_'
is_go_name name = false

-- Two collectors with no name in common
abbrev pub is_apart : Collector → Collector → Bool
is_apart (counter a) (counter b) = not (bytes_equal a.name b.name)
is_apart (counter a) build_info_collector = not (is_go_name a.name)
is_apart (counter a) (go_collector rule) = not (is_go_name a.name)
is_apart build_info_collector (counter b) = not (is_go_name b.name)
is_apart build_info_collector build_info_collector = false
is_apart build_info_collector (go_collector rule) = true
is_apart (go_collector rule) (counter b) = not (is_go_name b.name)
is_apart (go_collector rule) build_info_collector = true
is_apart (go_collector rule) (go_collector rule') = false

abbrev pub IsApart : Collector → Collector → Type 0
IsApart c d = is_apart c d ≡ true

-- A registry has the collectors that were registered, and takes one whose names are new.
pub record RegistryLaws (p : Prometheus) : Type 0 where
  pub collectors : p.Registry → List Collector
  pub new_registry_lem : collectors p.new_registry ≡ []
  pub register_lem :
      (c : Collector) (reg : p.Registry)
      → All (IsApart c) (collectors reg)
      → (reg' : p.Registry) × (p.register c reg ≡ answer reg')
        × (collectors reg' ≡ c ∷ collectors reg)

module _ (p : Prometheus) (laws : RegistryLaws p) where
  pub must_register_lem :
      (c : Collector) (reg : p.Registry) (there : List Collector)
      → laws.collectors reg ≡ there
      → All (IsApart c) there
      → (reg' : p.Registry) × (must_register p c reg ≡ ok reg') × (laws.collectors reg' ≡ c ∷ there)
  unfolding must_register
  must_register_lem c reg there has apart =
      let (reg', answers, now) =
        laws.register_lem c reg (subst (λ cs. All (IsApart c) cs) (sym has) apart) in
      (reg', rw answers refl, now ∙ ap (λ cs. c ∷ cs) has)
