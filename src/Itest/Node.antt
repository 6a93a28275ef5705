-- ===== src/Itest/Node.antt =====
-- itest/bitcoind_node_setup.go: the handler of the node. The host's directories and JSON are
-- parameters; the log is left out.
pub mod Laws
pub mod Failures
use covenant_signer.Prelude.{ℕ, Bool, true, false, List, [], ◌∷◌}
use covenant_signer.Prelude.Int.{ℤ}
use covenant_signer.Go.Text.{GoString, str, decimal_ℤ}
use covenant_signer.Go.Text.Atoi.{trim_suffix, atoi}
use covenant_signer.Go.Outcome.{Outcome, ok, err, panicked, or_err, Reply}
use covenant_signer.Go.Exec.{Exec, Call, call, lift, ◌>>=◌, ◌>>◌}
use covenant_signer.Itest.Docker.{Docker, Buffers}
use covenant_signer.Itest.Testify.{require_no_error, eventually}
use covenant_signer.Itest.Containers.{Manager, run_bitcoind_resource, exec_bitcoind_cli_cmd}

pub record CreateWalletResponse : Type 0 where
  pub name : GoString
  pub warning : GoString

pub record GenerateBlockResponse : Type 0 where
  pub address : GoString
  pub blocks : List GoString

-- `json.Unmarshal`, for the two types
pub record NodeJson : Type 0 where
  pub unmarshal_wallet : GoString → Reply CreateWalletResponse
  pub unmarshal_blocks : GoString → Reply GenerateBlockResponse

pub record Host (W : Type 0) : Type 0 where
  -- `os.MkdirTemp`
  pub mkdir_temp : GoString → GoString → Call W GoString
  -- `t.Cleanup`, with `os.RemoveAll` of a directory
  pub remove_at_cleanup : GoString → W → W

abbrev pub required : {W A : Type 0} → Exec W A → Exec W A
required m w = let (r, w') = m w in (require_no_error r, w')

abbrev pub changed : {W : Type 0} → (W → W) → Exec W (Unit {0})
changed f w = (ok tt, f w)

abbrev pub is_nil : {A : Type 0} → Outcome A → Outcome Bool
is_nil (ok a) = ok true
is_nil (err e) = ok false
is_nil (panicked t) = panicked t

abbrev pub start_end : {W A : Type 0} → A → Bool × W → Outcome A × W
start_end a (true, w) = (ok a, w)
start_end a (false, w) = (panicked (str "bitcoind did not start"), w)

-- There is time for `attempts` of a command, and for `starts` looks at a node that starts.
module _ {W : Type 0} (docker : Docker W) (attempts : ℕ) where
  unfoldable pub get_block_count : Manager docker → Exec W ℤ
  unfolding exec_bitcoind_cli_cmd trim_suffix atoi
  get_block_count m = do
    buff ← exec_bitcoind_cli_cmd docker attempts m (str "getblockcount" ∷ [])
    lift (or_err (atoi (trim_suffix b'\n' buff.out)))

  module _ (json : NodeJson) (m : Manager docker) where
    unfoldable pub create_wallet : GoString → GoString → Exec W CreateWalletResponse
    unfolding exec_bitcoind_cli_cmd
    create_wallet wallet_name passphrase = do
      buff ← required (
          exec_bitcoind_cli_cmd docker attempts m
            (str "createwallet" ∷ wallet_name ∷ str "false" ∷ str "false" ∷ passphrase ∷ []))
      lift (require_no_error (or_err (json.unmarshal_wallet buff.out)))

    unfoldable pub generate_blocks : ℤ → Exec W GenerateBlockResponse
    unfolding exec_bitcoind_cli_cmd decimal_ℤ
    generate_blocks count = do
      buff ←
          required
            (exec_bitcoind_cli_cmd docker attempts m (str "-generate" ∷ decimal_ℤ count ∷ []))
      lift (require_no_error (or_err (json.unmarshal_blocks buff.out)))

  module _ (host : Host W) (starts : ℕ) where
    abbrev pub started_node : Manager docker → W → Outcome Bool × W
    started_node m w = let (r, w') = get_block_count m w in (is_nil r, w')

    abbrev pub wait : Manager docker → Exec W (Manager docker)
    wait m w = start_end m (eventually starts (started_node m) w)

    -- With the manager as it is left
    unfoldable pub start : Manager docker → Exec W (Manager docker)
    unfolding run_bitcoind_resource get_block_count eventually
    start m = do
      temp_path ← required (call (host.mkdir_temp [] (str "bitcoind-staker-test-*")))
      changed (host.remove_at_cleanup temp_path)
      node ← required (run_bitcoind_resource docker m temp_path)
      wait node.0
