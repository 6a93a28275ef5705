-- ===== src/Itest/Node/Laws.antt =====
-- What the handler's operations return.
use covenant_signer.Prelude.{
  ℕ, zero, suc, ◌≡◌, refl, ap, Bool, true, false, some, List, [], ◌∷◌, ◌++◌, bytes_equal,
  bytes_equal_iff, subst, Bool-cases, inl, inr,
}
use covenant_signer.Prelude.Int.{ℤ, IsInt64}
use covenant_signer.Go.Text.{GoString, str, decimal_ℤ}
use covenant_signer.Go.Text.Atoi.{trim_suffix-append, atoi-decimal_ℤ}
use covenant_signer.Go.Outcome.{Outcome, ok, err, panicked, or_err}
use covenant_signer.Go.Exec.{continue-eq-ok}
use covenant_signer.Itest.Docker.{Docker, Buffers}
use covenant_signer.Itest.Testify.{require_no_error, eventually, try_again}
use covenant_signer.Itest.Containers.{
  Manager, find, set, bitcoind_container_name, run_options, docker_conf, run_bitcoind_resource,
  exec_bitcoind_cli_cmd,
}
use covenant_signer.Itest.Node.{Host, get_block_count, is_nil, started_node, start_end, start}

module _ {W : Type 0} (docker : Docker W) (attempts : ℕ) where
  pub get_block_count-decimal_ℤ :
      (m : Manager docker) (w w' : W) (bufs : Buffers) (n : ℤ)
      → exec_bitcoind_cli_cmd docker attempts m (str "getblockcount" ∷ []) w ≡ (ok bufs, w')
      → bufs.out ≡ decimal_ℤ n ++ b'\n' ∷ []
      → IsInt64 n
      → get_block_count docker attempts m w ≡ (ok n, w')
  unfolding get_block_count
  get_block_count-decimal_ℤ m w w' bufs n ran printed in_range =
      rw (ran, printed, trim_suffix-append b'\n' (decimal_ℤ n), atoi-decimal_ℤ n in_range) refl

find-set :
    {A : Type 0} (key : GoString) (a : A) (entries : List (GoString × A))
    → find key (set key a entries) ≡ some a
unfolding find set
find-set key a [] = rw ((bytes_equal_iff key key).1 refl) refl
find-set key a ((k, b) ∷ entries) = elim (Bool-cases (bytes_equal k key)) [
  | inl same ↦ rw (same, (bytes_equal_iff key key).1 refl) refl
  | inr other ↦ rw (other, other) (find-set key a entries)
]

require_no_error-eq-ok : {A : Type 0} (r : Outcome A) {a : A} → require_no_error r ≡ ok a → r ≡ ok a
require_no_error-eq-ok (ok a) h = h
require_no_error-eq-ok (err e) h = cc
require_no_error-eq-ok (panicked t) h = cc

module _ {W : Type 0} (docker : Docker W) where
  pub run_bitcoind_resource-find :
      (m : Manager docker) (path : GoString) (w : W) (node : Manager docker × docker.Resource)
      → (run_bitcoind_resource docker m path w).0 ≡ ok node
      → find bitcoind_container_name node.0.resources ≡ some node.1
  unfolding run_bitcoind_resource
  run_bitcoind_resource-find m path w node h =
      let run = run_bitcoind_resource docker m path w in
      let reply = docker.run_with_options m.pool (run_options m.cfg path) docker_conf w in
      let (resource, e, stored) =
        continue-eq-ok (or_err reply.0) _ reply.1 (ap (λ r. (r, run.1)) h) in
      let added : Manager docker × docker.Resource =
        (record m { resources = set bitcoind_container_name resource m.resources }, resource) in
      let same : added ≡ node = cc in
      subst (λ k. find bitcoind_container_name k.0.resources ≡ some k.1) same
        (find-set bitcoind_container_name resource m.resources)

  abbrev HasContainer : Manager docker → Type 0
  HasContainer m =
      (resource : docker.Resource) × (find bitcoind_container_name m.resources ≡ some resource)

module _ {W : Type 0} (docker : Docker W) (attempts : ℕ) where
  -- The count of blocks was the last that the world answered.
  abbrev pub Answered : Manager docker → W → Type 0
  Answered m w' = (w : W) × (n : ℤ) × (get_block_count docker attempts m w ≡ (ok n, w'))

  looked :
      (again : W → Bool × W) (m : Manager docker) (w : W) (x : Outcome ℤ × W) (w' : W)
      → ((t : W) → again t ≡ (true, w') → Answered m w')
      → get_block_count docker attempts m w ≡ x
      → try_again again (is_nil x.0, x.1) ≡ (true, w')
      → Answered m w'
  looked again m w (ok n, w₁) w' later asked h =
      subst (λ t. Answered m t) (ap (λ t. t.1) h) (w, n, asked)
  looked again m w (err e, w₁) w' later asked h = later w₁ h
  looked again m w (panicked t, w₁) w' later asked h = cc (ap (λ t. t.0) h)

  module _ (host : Host W) (starts : ℕ) where
    -- The first answer ends the wait.
    wait-Answered :
        (n : ℕ) (m : Manager docker) (w w' : W)
        → eventually n (started_node docker attempts host starts m) w ≡ (true, w')
        → Answered m w'
    unfolding eventually
    wait-Answered zero m w w' h = cc (ap (λ t. t.0) h)
    wait-Answered (suc n) m w w' h =
        looked (λ t. eventually n (started_node docker attempts host starts m) t) m w
          (get_block_count docker attempts m w) w' (λ t. wait-Answered n m t w') refl h

    start_end-ok :
        (m : Manager docker) (x : Bool × W) (m' : Manager docker) (w' : W)
        → start_end m x ≡ (ok m', w')
        → (m ≡ m') × (x ≡ (true, w'))
    start_end-ok m (true, w) m' w' h = (cc, cc)
    start_end-ok m (false, w) m' w' h = cc

    -- When `Start` returns, the manager has a container under the name of the node, and the last
    -- thing that happened in the world is a call of `GetBlockCount` that returned a number.
    pub start-Answered :
        (m m' : Manager docker) (w w' : W)
        → start docker attempts host starts m w ≡ (ok m', w')
        → ((resource : docker.Resource) × (find bitcoind_container_name m'.resources
              ≡ some resource))
          × Answered m' w'
    unfolding start run_bitcoind_resource
    start-Answered m m' w w' h =
        let made = host.mkdir_temp [] (str "bitcoind-staker-test-*") w in
        let (path, e₁, h₁) = continue-eq-ok (require_no_error (or_err made.0)) _ made.1 h in
        let w₁ = host.remove_at_cleanup path made.1 in
        let run = run_bitcoind_resource docker m path w₁ in
        let (node, e₂, h₂) = continue-eq-ok (require_no_error run.0) _ run.1 h₁ in
        let (left, done) =
          start_end-ok node.0
            (eventually starts (started_node docker attempts host starts node.0) run.1) m' w' h₂ in
        let kept =
          run_bitcoind_resource-find docker m path w₁ node (require_no_error-eq-ok run.0 e₂) in
        subst (λ k. HasContainer docker k × Answered k w') left
          ((node.1, kept), wait-Answered starts node.0 run.1 w' done)
