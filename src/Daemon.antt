-- ===== src/Daemon.antt =====
-- nodedaemon/src/theozolith_nodedaemon/daemon.py and stacks.py: the state of a node's daemon and of its process
-- supervisor, the files of the state directory that it reads back, and what it calls. Docker, the operating
-- system and the Control Node are not the daemon's, so their state `H` is a type parameter and each call an
-- arbitrary action on it which may raise; the exit of a process, the entries of a directory and a file's
-- presence are read off that state.
pub mod Base
pub mod Supervisor
pub mod Runs
pub mod Compose
pub mod Teardown
pub mod Spec
pub mod Process
pub mod Containers
pub mod Generations
pub mod Reconcile
pub mod Beat
pub mod Commands
pub mod Drivers
pub mod Pass
pub mod Kept
pub mod Durable
pub mod Apart
pub mod Identity
pub mod Busy
pub mod Undisturbed
pub mod Preflight
pub mod Contained
pub mod Acks
pub mod Pacing
pub mod Reclaimed
pub mod Staged
mod Sample
mod Tests
use the_ozolith.Common.{
  ℕ, String, refl, Bool, Option, List, arith, nat_eq, string_eq, pair_eq, triple_eq, list_eq,
}
use the_ozolith.Common.Table.{Table}
use the_ozolith.Common.Message.{Message}
use the_ozolith.Common.Exec.{Result, Exec, ◌>>=◌}

-- the exceptions, with their texts
pub data Fault : Type 0 where
  docker_error control_unreachable control_error secret_name_error os_error value_error
        launcher_missing runtime_error :
      Message → Fault

-- os.environ-like dicts
abbrev pub Env : Type 0
Env = Table String String

-- WireStack
pub record WireStack : Type 0 where
  pub name : String
  pub kind : String
  pub state : String
  pub env : Env
  pub secrets : Env
  pub command : String
  pub image : String
  pub ports : List String
  pub volumes : List String
  pub tmpfs : List String
  pub compose_files : List (String × String)

-- a recipe of the desired state; what only the build reads is its text
pub record Image : Type 0 where
  pub name : String
  pub tag : String
  pub recipe : String

pub record Desired : Type 0 where
  pub stacks : List WireStack
  pub images : List Image
  pub product_version : String
  pub drivers_hash : String
  pub heartbeat_seconds : Option ℕ
  pub stop_grace_seconds : Option ℕ

pub data ComposeState : Type 0 where
  pending applied : ComposeState

pub record AppliedCompose : Type 0 where
  pub fingerprint : String
  pub files : List String
  pub state : ComposeState

pub record Child : Type 0 where
  pub process : ℕ
  pub command : String
  pub fingerprint : String

-- NodeDaemon and its ProcessSupervisor
pub record Daemon : Type 0 where
  pub desired : Desired
  pub drained : List String
  pub completed : List ℕ
  pub applied_compose : Table String AppliedCompose
  pub applied_jobs_dir : Table String String
  pub rebuild_targets : List String
  pub deferrals : Table ℕ Message
  pub update_done : Bool
  pub update_blocker : Option Message
  pub product_attempted : Bool
  pub drivers_attempted : Bool
  pub drivers_blocker : Option Message
  pub verified_drivers_hash : Option String
  pub unreachable_streak : ℕ
  pub children : Table String Child
  pub last_exit : Table String ℕ

-- the state files, each written whole
pub record Disk : Type 0 where
  pub acks : List ℕ
  pub drained : List String
  pub applied_compose : Table String AppliedCompose
  pub cache : Desired

pub data StateFile : Type 0 where
  acks_path drained_path applied_compose_path cache_path : StateFile

-- DaemonConfig
pub record Config : Type 0 where
  pub node : String
  pub version : String
  pub control_url : String
  pub node_token : String
  pub tls_ca : String
  pub state_dir : String
  pub secrets_dir : String
  pub config_dist_dir : String
  pub heartbeat_seconds : ℕ
  pub stop_grace_seconds : ℕ

-- a row of `docker ps`; a label that it does not carry is empty
pub record Container : Type 0 where
  pub name : String
  pub owner : String
  pub state : String
  pub spec : String

pub record Entry : Type 0 where
  pub name : String
  pub is_dir : Bool

-- what `docker run` is given
pub record Launch : Type 0 where
  pub stack : String
  pub image : String
  pub env_files : Env
  pub env : Env
  pub ports : List String
  pub volumes : List String
  pub tmpfs : List String
  pub command : Option (List String)
  pub spec : String

-- a summary posted to the Control Node
pub data Event : Type 0 where
  error : String → Message → Event
  stack_replace : String → String → Message → Event

-- a command of a heartbeat's answer
pub record Command : Type 0 where
  pub id : Option ℕ
  pub verb : String
  pub target : Option String
  pub force : Bool

pub record Answer : Type 0 where
  pub config : Option Desired
  pub commands : List Command

pub record StackStatus : Type 0 where
  pub name : String
  pub kind : String
  pub state : String

-- live container evidence: the container's name, its Stack and its state
pub record Evidence : Type 0 where
  pub name : String
  pub stack : String
  pub state : String

-- the body of a heartbeat, without the texts that are only shown
pub record Payload : Type 0 where
  pub stacks : List StackStatus
  pub stack_containers : List Evidence
  pub run_containers : List Container
  pub drivers_hash : String
  pub completed_commands : List ℕ
  pub deferred_commands : Table ℕ Message
  pub update_deferred : Message
  pub drivers_deferred : Message

-- what the daemon calls
pub record Host (H : Type 0) : Type 0 where
  pub config : Config
  pub has_client : Bool
  -- DockerCtl
  pub run_containers : Exec Fault H (List Container)
  pub stack_containers : Option String → Exec Fault H (List Container)
  pub remove : String → Exec Fault H (Unit {0})
  pub run_stack_container : Launch → Exec Fault H (Unit {0})
  pub container_restart_policy : String → Exec Fault H (Option String)
  pub set_restart_policy : String → String → Exec Fault H (Unit {0})
  pub compose : String → List String → String → Exec Fault H (Unit {0})
  pub compose_ps : String → Exec Fault H (List Container)
  pub image_exists : String → Exec Fault H Bool
  -- builds.ensure_image: the recipe, whether it is forced, the applied distribution and the
  -- credentials; whether a build ran
  pub ensure_image : Image → Bool → Option String → Option String → Exec Fault H Bool
  -- _build_docker_config, which swallows its failures
  pub build_docker_config : List Image → H → Option String × H
  -- ControlClient
  pub heartbeat : Payload → Exec Fault H Answer
  pub emit_event : Event → Exec Fault H (Unit {0})
  pub pull_secrets : List String → Exec Fault H Env
  -- processes: start, exit status if any, and SIGTERM, wait, SIGKILL
  pub popen : List String → Env → Exec Fault H ℕ
  -- `os.environ`, which the daemon does not change
  pub environ : Env
  pub poll : ℕ → H → Option ℕ
  pub kill_tree : ℕ → ℕ → Exec Fault H ℕ
  pub execv : Exec Fault H (Unit {0})
  -- files; `none` is an OSError
  pub iterdir : String → H → Option (List Entry)
  pub is_file : String → H → Bool
  pub is_dir : String → H → Bool
  -- the parts of a path below `stacks/`; `none` is an OSError or a ValueError
  pub parts_below : String → H → Option (List String)
  pub rmtree : String → Exec Fault H (Unit {0})
  pub launcher_path : Exec Fault H String
  pub materialize_secrets : String → Env → Exec Fault H (Unit {0})
  pub replace : StateFile → Exec Fault H (Unit {0})
  -- _compose_paths: the files of a generation, written and validated
  pub materialize_compose : WireStack → String → Exec Fault H (List String)
  -- _verify_applied_drivers
  pub verify_applied_drivers : Exec Fault H String
  -- a distribution fetched, unpacked and verified beside the applied one; the exchange; the
  -- cleanup of the staging tree; the pointer to the applied one, written or cleared; and the
  -- reclaiming of all but these
  pub stage_distribution : String → Exec Fault H (Unit {0})
  pub exchange_distribution : String → Exec Fault H (Unit {0})
  pub discard_staging : H → Unit {0} × H
  pub write_current_pointer : String → Exec Fault H (Unit {0})
  pub clear_current_pointer : H → Unit {0} × H
  pub gc_config_dist : List String → Exec Fault H (Unit {0})
  -- _export_knowledge, _export_policy and _converge_cli, which work on files
  pub export_knowledge : Exec Fault H (Unit {0})
  pub export_policy : Exec Fault H (Unit {0})
  pub converge_cli : Exec Fault H (Unit {0})
  -- the targets of an update to a version, what keeps the venv from being written, and pip
  pub update_targets : String → Exec Fault H (List String)
  pub venv_writable : Exec Fault H (Option Message)
  pub pip_install : List String → Exec Fault H Bool
  -- shlex.split, and the digests of canonical JSON
  pub split : String → Result Fault (List String)
  pub spec_digest : String → Env → String
  pub compose_digest : List (String × String) → Env → Env → String
  pub container_digest :
      String → String → Env → Env → List String → List String → Option (List String) → String
  pub scheme : String → String

pub record Machine (H : Type 0) : Type 0 where
  pub daemon : Daemon
  pub disk : Disk
  pub host : H
