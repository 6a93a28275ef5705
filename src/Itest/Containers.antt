-- ===== src/Itest/Containers.antt =====
-- itest/containers: the manager of the containers. docker is a parameter; the log is left out, and
-- the deadline of a command is in the world.
pub mod Retries
pub mod Tried
use covenant_signer.Prelude.{
  ℕ, Bool, true, false, Option, none, some, List, [], ◌∷◌, ◌++◌, ◌==◌, ◌&&◌, ◌||◌, bytes_equal,
  if◌then◌else◌,
}
use covenant_signer.Go.Text.{GoString, str}
use covenant_signer.Go.Outcome.{Outcome, ok, err, panicked, new, Reply, answer, failure}
use covenant_signer.Go.Exec.{Exec, call, lift, ◌>>=◌, ◌>>◌}
use covenant_signer.Itest.Docker.{
  Docker, CreateExecOptions, PortBinding, RunOptions, HostConfig, Buffers,
}
use covenant_signer.Itest.Testify.{eventually}

-- config.go
pub record ImageConfig : Type 0 where
  pub bitcoind_repository : GoString
  pub bitcoind_version : GoString

unfoldable pub docker_bitcoind_repository : GoString
docker_bitcoind_repository = str "lncm/bitcoind"

unfoldable pub docker_bitcoind_version_tag : GoString
docker_bitcoind_version_tag = str "v26.0"

unfoldable pub new_image_config : ImageConfig
unfolding docker_bitcoind_repository docker_bitcoind_version_tag
new_image_config = record {
  bitcoind_repository = docker_bitcoind_repository;
  bitcoind_version = docker_bitcoind_version_tag;
}

-- containers.go
unfoldable pub bitcoind_container_name : GoString
bitcoind_container_name = str "bitcoind-test"

-- A text that starts with "rror"
unfoldable pub has_rror : GoString → Bool
has_rror (a ∷ b ∷ c ∷ d ∷ s) = a == b'r' && b == b'r' && c == b'o' && d == b'r'
has_rror s = false

-- `errRegex.MatchString`, for `(E|e)rror`
unfoldable pub has_error : GoString → Bool
unfolding has_rror
has_error [] = false
has_error (c ∷ s) = (c == b'E' || c == b'e') && has_rror s || has_error s

-- A Go map with texts as keys
module _ {A : Type 0} where
  unfoldable pub find : GoString → List (GoString × A) → Option A
  find key [] = none
  find key ((k, a) ∷ entries) = if bytes_equal k key then some a else find key entries

  unfoldable pub set : GoString → A → List (GoString × A) → List (GoString × A)
  set key a [] = (key, a) ∷ []
  set key a ((k, b) ∷ entries) =
      if bytes_equal k key then (key, a) ∷ entries else (k, b) ∷ set key a entries

abbrev pub written : Buffers → Buffers → Buffers
written bufs more = record { out = bufs.out ++ more.out; err = bufs.err ++ more.err }

abbrev pub no_output : Buffers
no_output = record { out = []; err = [] }

abbrev pub output : {W : Type 0} → Bool × (Buffers × W) → Outcome Buffers × W
output (true, (bufs, w)) = (ok bufs, w)
output (false, (bufs, w)) = (panicked (str "command failed"), w)

abbrev pub cli : List GoString → List GoString
cli command =
    str "bitcoin-cli"
    ∷ str "-chain=regtest"
    ∷ str "-rpcuser=user"
    ∷ str "-rpcpassword=pass"
    ∷ command

abbrev pub exec_options : GoString → List GoString → CreateExecOptions
exec_options container_id command = record {
  attach_stdout = true;
  attach_stderr = true;
  container = container_id;
  user = str "root";
  cmd = command;
}

unfoldable pub docker_conf : HostConfig → HostConfig
docker_conf config = record config { restart_policy = str "no"; auto_remove = true }

-- A port of the container at the same port of the host
abbrev pub bind : GoString → GoString × List PortBinding
bind port = (port ++ str "/tcp", record { host_ip = []; host_port = port } ∷ [])

unfoldable pub run_options : ImageConfig → GoString → RunOptions
unfolding bitcoind_container_name
run_options cfg bitcoind_cfg_path = record {
  name = bitcoind_container_name;
  repository = cfg.bitcoind_repository;
  tag = cfg.bitcoind_version;
  user = str "root:root";
  mounts = (bitcoind_cfg_path ++ str "/:/data/.bitcoin") ∷ [];
  exposed_ports =
      str "8332" ∷ str "8333" ∷ str "28332" ∷ str "28333" ∷ str "18443" ∷ str "18444" ∷ [];
  port_bindings =
      bind (str "8332")
      ∷ bind (str "8333")
      ∷ bind (str "28332")
      ∷ bind (str "28333")
      ∷ bind (str "18443")
      ∷ bind (str "18444")
      ∷ [];
  cmd =
      str "-regtest"
      ∷ str "-txindex"
      ∷ str "-rpcuser=user"
      ∷ str "-rpcpassword=pass"
      ∷ str "-rpcallowip=0.0.0.0/0"
      ∷ str "-rpcbind=0.0.0.0"
      ∷ [];
}

module _ {W : Type 0} (docker : Docker W) where
  pub record Manager : Type 0 where
    pub cfg : ImageConfig
    pub pool : docker.Pool
    pub resources : List (GoString × docker.Resource)

  unfoldable pub new_manager : Exec W Manager
  unfolding new_image_config
  new_manager = do
    pool ← call (docker.new_pool [])
    lift (ok (record { cfg = new_image_config; pool = pool; resources = [] }))

  abbrev pub checked : Reply (Unit {0}) → Buffers → W → Outcome Bool × Buffers × W
  checked (failure text) bufs w = (ok false, bufs, w)
  checked (answer _) bufs w = (ok (if has_error bufs.err then false else true), bufs, w)

  abbrev pub started : docker.Pool → Reply GoString × W → Buffers → Outcome Bool × Buffers × W
  started pool (failure text, w) bufs = (ok false, bufs, w)
  started pool (answer id, w) bufs =
      let (r, more, w') = docker.start_exec pool id w in checked r (written bufs more) w'

  -- The condition of the loop in `ExecCmd`. The buffers are those of all attempts.
  unfoldable pub attempt :
      docker.Pool → GoString → List GoString → Buffers × W → Outcome Bool × (Buffers × W)
  unfolding has_error
  attempt pool container_id command (bufs, w) =
      let (r, bufs', w') =
        started pool (docker.create_exec pool (exec_options container_id command) w) bufs in
      (r, (bufs', w'))

  abbrev pub exec_found :
      ℕ → docker.Pool → GoString → List GoString → Option docker.Resource → Exec W Buffers
  exec_found attempts pool container_name command none w =
      (err (new (str "no resource " ++ (container_name ++ str " found"))), w)
  exec_found attempts pool container_name command (some resource) w =
      output
        (eventually attempts (attempt pool (docker.container_id resource) command) (no_output, w))

  -- There is time for so many attempts.
  module _ (attempts : ℕ) where
    unfoldable pub exec_cmd : Manager → GoString → List GoString → Exec W Buffers
    unfolding find eventually attempt
    exec_cmd m container_name command =
        exec_found attempts m.pool container_name command (find container_name m.resources)

    unfoldable pub exec_bitcoind_cli_cmd : Manager → List GoString → Exec W Buffers
    unfolding exec_cmd bitcoind_container_name
    exec_bitcoind_cli_cmd m command = exec_cmd m bitcoind_container_name (cli command)

  -- With the manager as it is left
  unfoldable pub run_bitcoind_resource : Manager → GoString → Exec W (Manager × docker.Resource)
  unfolding run_options docker_conf set bitcoind_container_name
  run_bitcoind_resource m bitcoind_cfg_path = do
    resource ←
        call (docker.run_with_options m.pool (run_options m.cfg bitcoind_cfg_path) docker_conf)
    lift (ok (record m { resources = set bitcoind_container_name resource m.resources }, resource))

  -- Go ranges over a map in any order, here in that of the list.
  unfoldable pub purge_all : docker.Pool → List (GoString × docker.Resource) → Exec W (Unit {0})
  purge_all pool [] = lift (ok tt)
  purge_all pool ((name, resource) ∷ rest) = do
    call (docker.purge pool resource)
    purge_all pool rest

  unfoldable pub clear_resources : Manager → Exec W (Unit {0})
  unfolding purge_all
  clear_resources m = purge_all m.pool m.resources
