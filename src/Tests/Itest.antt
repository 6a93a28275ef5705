-- ===== src/Tests/Itest.antt =====
-- A docker with one container, in which a node counts 101 blocks and knows no other command. The
-- world is the number of commands started.
use covenant_signer.Prelude.{
  ℕ, ◌≡◌, refl, some, List, [], ◌∷◌, bytes_equal, leb, ◌&&◌, ◌++◌, suc, if◌then◌else◌, arith,
}
use covenant_signer.Prelude.Int.{pos}
use covenant_signer.Go.Text.{GoString, str, decimal_ℤ}
use covenant_signer.Go.Outcome.{ok, panicked, answer}
use covenant_signer.Itest.Docker.{Docker, Buffers}
use covenant_signer.Itest.Testify.{eventually}
use covenant_signer.Itest.Containers.{
  Manager, new_image_config, cli, has_error, find, attempt, no_output, exec_cmd,
  exec_bitcoind_cli_cmd, run_bitcoind_resource, bitcoind_container_name,
}
use covenant_signer.Itest.Containers.Retries.{exec_cmd-fails}
use covenant_signer.Itest.Containers.Tried.{Success, exec_cmd-Tried}
use covenant_signer.Itest.Node.{Host, get_block_count, start}
use covenant_signer.Itest.Node.Laws.{Answered, get_block_count-decimal_ℤ, start-Answered}
use covenant_signer.Itest.Node.Failures.{start_too_early}

abbrev last : List GoString → GoString
last [] = []
last (s ∷ []) = s
last (s ∷ t ∷ rest) = last (t ∷ rest)

abbrev count : Buffers
count = record { out = str "101" ++ b'\n' ∷ []; err = [] }

abbrev unknown : Buffers
unknown = record { out = []; err = str "error code: -32601" }

abbrev container : GoString
container = str "c0"

-- `answers` tells from when on the node answers.
abbrev toy_docker : ℕ → Docker ℕ
toy_docker answers = record {
  Pool = Unit {0};
  Resource = GoString;
  new_pool = λ endpoint w. (answer tt, w);
  container_id = λ resource. resource;
  create_exec = λ pool options w. (answer (last options.cmd), w);
  start_exec = λ pool id w. (
    answer tt,
    if leb answers w && bytes_equal id (str "getblockcount") then count else unknown,
    suc w,
  );
  run_with_options = λ pool options configure w. (answer container, w);
  purge = λ pool resource w. (answer tt, w);
}

abbrev toy_host : Host ℕ
toy_host = record {
  mkdir_temp = λ dir pattern w. (answer (str "/tmp/bitcoind-staker-test-1"), w);
  remove_at_cleanup = λ path w. w;
}

abbrev empty : (answers : ℕ) → Manager (toy_docker answers)
empty answers = record { cfg = new_image_config; pool = tt; resources = [] }

abbrev running : (answers : ℕ) → Manager (toy_docker answers)
running answers = record {
  cfg = new_image_config;
  pool = tt;
  resources = (bitcoind_container_name, container) ∷ [];
}

abbrev command : List GoString
command = cli (str "getblockcount" ∷ [])

block_count_run : get_block_count (toy_docker 0) 3 (running 0) 0 ≡ (ok (pos 101), 1)
unfolding exec_bitcoind_cli_cmd exec_cmd find eventually attempt has_error decimal_ℤ str bytes_equal
    bitcoind_container_name
block_count_run =
    get_block_count-decimal_ℤ (toy_docker 0) 3 (running 0) 0 1 count (pos 101) refl refl
      (omega arith, omega arith)

exec_cmd-fails_example :
    (exec_cmd (toy_docker 1) 40 (running 1) bitcoind_container_name command 0).0
    ≡ panicked (str "command failed")
unfolding find has_error bytes_equal bitcoind_container_name str
exec_cmd-fails_example =
    exec_cmd-fails (toy_docker 1) 40 (running 1) bitcoind_container_name command container 0 0 1
      (str "getblockcount") (answer tt) unknown refl refl refl refl

exec_cmd-Tried_example :
    (resource : GoString) × (find bitcoind_container_name (running 0).resources ≡ some resource)
    × Success (toy_docker 0) tt resource command no_output 0 count 1
unfolding exec_cmd find eventually attempt has_error bytes_equal bitcoind_container_name str
exec_cmd-Tried_example =
    exec_cmd-Tried (toy_docker 0) 3 (running 0) bitcoind_container_name command 0 count 1 refl

start-Answered_example :
    ((resource : GoString) × (find bitcoind_container_name (running 0).resources ≡ some resource))
    × Answered (toy_docker 0) 3 (running 0) 1
unfolding start run_bitcoind_resource get_block_count exec_bitcoind_cli_cmd exec_cmd find eventually
    attempt has_error bytes_equal bitcoind_container_name str new_image_config
start-Answered_example = start-Answered (toy_docker 0) 3 toy_host 2 (empty 0) (running 0) 0 1 refl

start_too_early_example :
    (start (toy_docker 1) 40 toy_host 60 (empty 1) 0).0 ≡ panicked (str "bitcoind did not start")
unfolding run_bitcoind_resource find has_error bytes_equal bitcoind_container_name str
    new_image_config
start_too_early_example =
    start_too_early (toy_docker 1) 40 toy_host 60 (empty 1) (str "/tmp/bitcoind-staker-test-1")
      (running 1) container 0 0 0 0 1 (str "getblockcount") (answer tt) unknown refl refl refl refl
      refl
