-- ===== src/Itest/Node/Failures.antt =====
-- When the handler cannot start a node.
use covenant_signer.Prelude.{ℕ, zero, suc, ◌≡◌, refl, ap, Bool, true, false, [], ◌∷◌}
use covenant_signer.Go.Text.{GoString, str}
use covenant_signer.Go.Outcome.{Outcome, ok, panicked, Reply, answer}
use covenant_signer.Go.Exec.{Exec, continue}
use covenant_signer.Itest.Docker.{Docker, Buffers}
use covenant_signer.Itest.Testify.{eventually}
use covenant_signer.Itest.Containers.{
  Manager, cli, exec_options, has_error, bitcoind_container_name, run_bitcoind_resource,
  exec_bitcoind_cli_cmd,
}
use covenant_signer.Itest.Containers.Retries.{exec_cmd-fails}
use covenant_signer.Itest.Node.{Host, get_block_count, started_node, start_end, start}
use covenant_signer.Itest.Node.Laws.{run_bitcoind_resource-find}

start_end-false :
    {W A : Type 0} (a : A) (x : Bool × W)
    → x.0 ≡ false
    → (start_end a x).0 ≡ panicked (str "bitcoind did not start")
start_end-false a (true, w) h = cc
start_end-false a (false, w) h = refl

continue-panicked :
    {W A B : Type 0} (r : Outcome A) (f : A → Exec W B) (w : W) (text : GoString)
    → r ≡ panicked text
    → (continue r f w).0 ≡ panicked text
continue-panicked r f w text h = rw h refl

module _ {W : Type 0} (docker : Docker W) (attempts : ℕ) where
  get_block_count-panicked :
      (m : Manager docker) (w : W) (text : GoString)
      → (exec_bitcoind_cli_cmd docker attempts m (str "getblockcount" ∷ []) w).0 ≡ panicked text
      → (get_block_count docker attempts m w).0 ≡ panicked text
  unfolding get_block_count
  get_block_count-panicked m w text h =
      let ran = exec_bitcoind_cli_cmd docker attempts m (str "getblockcount" ∷ []) w in
      continue-panicked ran.0 _ ran.1 text h

  module _ (host : Host W) (starts : ℕ) where
    -- A condition that ends the test ends the wait.
    wait-panicked :
        (n : ℕ) (m : Manager docker) (w : W) (text : GoString)
        → (get_block_count docker attempts m w).0 ≡ panicked text
        → (eventually n (started_node docker attempts host starts m) w).0 ≡ false
    unfolding eventually
    wait-panicked zero m w text h = refl
    wait-panicked (suc n) m w text h = rw h refl

    -- If the first command that asks a new node for its block count writes an error, then
    -- `Start` ends the test, however often it could try and however often the command could be
    -- repeated.
    pub start_too_early :
        (m : Manager docker) (path : GoString) (node : Manager docker) (resource : docker.Resource)
        (w w₁ w₂ w₃ w₄ : W) (id : GoString) (r : Reply (Unit {0})) (more : Buffers)
        → host.mkdir_temp [] (str "bitcoind-staker-test-*") w ≡ (answer path, w₁)
        → run_bitcoind_resource docker m path (host.remove_at_cleanup path w₁)
          ≡ (ok (node, resource), w₂)
        → docker.create_exec node.pool
            (exec_options (docker.container_id resource) (cli (str "getblockcount" ∷ [])))
            w₂
          ≡ (answer id, w₃)
        → docker.start_exec node.pool id w₃ ≡ (r, more, w₄)
        → has_error more.err ≡ true
        → (start docker attempts host starts m w).0 ≡ panicked (str "bitcoind did not start")
    unfolding start exec_bitcoind_cli_cmd
    start_too_early m path node resource w w₁ w₂ w₃ w₄ id r more makes runs creates writes wrong =
        let found =
          run_bitcoind_resource-find docker m path (host.remove_at_cleanup path w₁) (node, resource)
            (ap (λ x. x.0) runs) in
        let ends =
          exec_cmd-fails docker attempts node bitcoind_container_name
            (cli (str "getblockcount" ∷ [])) resource w₂ w₃ w₄ id r more found creates writes
            wrong in
        let unanswered = get_block_count-panicked node w₂ (str "command failed") ends in
        rw (makes, runs)
          (start_end-false node
            (eventually starts (started_node docker attempts host starts node) w₂)
            (wait-panicked starts node w₂ (str "command failed") unanswered))
