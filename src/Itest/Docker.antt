-- ===== src/Itest/Docker.antt =====
-- What itest/containers takes of ory/dockertest, as a parameter.
use covenant_signer.Prelude.{Bool, List}
use covenant_signer.Go.Text.{GoString}
use covenant_signer.Go.Outcome.{Reply}
use covenant_signer.Go.Exec.{Call}

pub record CreateExecOptions : Type 0 where
  pub attach_stdout : Bool
  pub attach_stderr : Bool
  pub container : GoString
  pub user : GoString
  pub cmd : List GoString

pub record PortBinding : Type 0 where
  pub host_ip : GoString
  pub host_port : GoString

pub record RunOptions : Type 0 where
  pub name : GoString
  pub repository : GoString
  pub tag : GoString
  pub user : GoString
  pub mounts : List GoString
  pub exposed_ports : List GoString
  pub port_bindings : List (GoString × List PortBinding)
  pub cmd : List GoString

-- The fields of `docker.HostConfig` that the program sets
pub record HostConfig : Type 0 where
  pub restart_policy : GoString
  pub auto_remove : Bool

-- What a command writes to its two streams
pub record Buffers : Type 0 where
  pub out : GoString
  pub err : GoString

pub record Docker (W : Type 0) : Type 1 where
  pub Pool : Type 0
  pub Resource : Type 0
  pub new_pool : GoString → Call W Pool
  pub container_id : Resource → GoString
  -- `CreateExec`: the id of the command to start
  pub create_exec : Pool → CreateExecOptions → Call W GoString
  -- `StartExec`, with what is written until it returns, also with an error
  pub start_exec : Pool → GoString → W → Reply (Unit {0}) × Buffers × W
  -- `RunWithOptions`, with the function that sets the host's configuration
  pub run_with_options : Pool → RunOptions → (HostConfig → HostConfig) → Call W Resource
  pub purge : Pool → Resource → Call W (Unit {0})
