-- ===== src/Daemon/Sample.antt =====
-- A small host, with a driver and a compose project, on which the daemon is run.
use the_ozolith.Common.{
  String, true, false, none, some, List, [], ◌∷◌, if◌then◌else◌, ◌==◌, nat_eq, string_eq, pair_eq,
  triple_eq, list_eq,
}
use the_ozolith.Common.Exec.{ok, Exec}
use the_ozolith.Daemon.{Fault, WireStack, Desired, Daemon, Host, Machine}

-- the host notes what it is asked to do
abbrev pub Log : Type 0
Log = List String

abbrev pub noted : String → Exec Fault Log (Unit {0})
noted line log = (ok tt, line ∷ log)

abbrev pub answers : {A : Type 0} → A → Exec Fault Log A
answers a log = (ok a, log)

abbrev pub compose_answers : String → List String → String → Exec Fault Log (Unit {0})
compose_answers project files verb = noted verb

-- a service with no client, where process 1 lives and its jobs directory holds a Run
abbrev pub small : Host Log
small = record {
  config = record {
    node = "n1";
    version = "1";
    control_url = "https://control";
    node_token = "token";
    tls_ca = "ca.pem";
    state_dir = "/state";
    secrets_dir = "/run";
    config_dist_dir = "/dist";
    heartbeat_seconds = 60;
    stop_grace_seconds = 30;
  };
  has_client = true;
  run_containers = answers [];
  stack_containers = λ name. answers [];
  remove = λ name. noted "remove";
  run_stack_container = λ launch. noted "run";
  container_restart_policy = λ name. answers none;
  set_restart_policy = λ name policy. noted "policy";
  compose = compose_answers;
  compose_ps = λ project. answers [];
  image_exists = λ tag. answers true;
  ensure_image = λ i force root credentials. answers false;
  build_docker_config = λ is log. (none, log);
  heartbeat = λ payload. answers (record { config = none; commands = [] });
  emit_event = λ e. noted "event";
  pull_secrets = λ names. answers [];
  environ = ("PATH", "/usr/bin") ∷ [];
  popen = λ argv env log. (ok 2, "start" ∷ log);
  poll = λ process log. if process == 1 then none else some 0;
  kill_tree = λ process grace log. (ok 0, "kill" ∷ log);
  execv = noted "exec";
  iterdir = λ dir log.
      if dir == "/jobs"
      then some (record { name = "20260101"; is_dir = true } ∷ [])
      else if dir == "/state/stacks"
      then some (record { name = "web"; is_dir = true } ∷ [])
      else if dir == "/state/stacks/web"
      then some
          (record { name = "old"; is_dir = true } ∷ record { name = "new"; is_dir = true } ∷ [])
      else none;
  is_file = λ path log. true;
  is_dir = λ path log. true;
  parts_below = λ path log. some ("web" ∷ "new" ∷ path ∷ []);
  rmtree = λ path. noted path;
  launcher_path = answers "/venv/bin/theozolith-driver";
  materialize_secrets = λ dir values. noted "secrets";
  replace = λ file. noted "write";
  materialize_compose = λ s fingerprint. answers ("base.yml" ∷ []);
  verify_applied_drivers = answers "";
  stage_distribution = λ hash. noted "stage";
  exchange_distribution = λ hash. noted "exchange";
  discard_staging = λ log. (tt, log);
  write_current_pointer = λ hash. noted "pointer";
  clear_current_pointer = λ log. (tt, log);
  gc_config_dist = λ keep. noted "gc";
  export_knowledge = answers tt;
  export_policy = answers tt;
  converge_cli = answers tt;
  update_targets = λ pin. answers ("theozolith-nodedaemon" ∷ []);
  venv_writable = answers none;
  pip_install = λ targets. answers true;
  split = λ command. ok (command ∷ []);
  spec_digest = λ command env. command;
  compose_digest = λ files env secrets. "digest";
  container_digest = λ image command env secrets ports volumes tmpfs. image;
  scheme = λ url. "https";
}

abbrev pub stack : String → String → WireStack
stack name kind = record {
  name = name;
  kind = kind;
  state = "running";
  env =
      ("THEOZOLITH_JOBS_DIR", "/jobs")
      ∷ ("THEOZOLITH_RUN_IMAGE", "run:1")
      ∷ ("CONTROL_NODE_URL", "https://elsewhere")
      ∷ [];
  secrets = [];
  command = "worker";
  image = "";
  ports = [];
  volumes = [];
  tmpfs = [];
  compose_files = [];
}

-- a driver, and a compose project
abbrev pub driver : WireStack
driver = stack "driver" "process"

abbrev pub web : WireStack
web = record (stack "web" "container") { compose_files = ("base.yml", "services:") ∷ [] }

abbrev pub wanted : Desired
wanted = record {
  stacks = driver ∷ web ∷ [];
  images = [];
  product_version = "2";
  drivers_hash = "d1";
  heartbeat_seconds = none;
  stop_grace_seconds = none;
}

abbrev pub idle : Daemon
idle = record {
  desired = wanted;
  drained = [];
  completed = 4 ∷ [];
  applied_compose = [];
  applied_jobs_dir = [];
  rebuild_targets = [];
  deferrals = [];
  update_done = false;
  update_blocker = none;
  product_attempted = false;
  drivers_attempted = false;
  drivers_blocker = none;
  verified_drivers_hash = none;
  unreachable_streak = 3;
  children = [];
  last_exit = [];
}

-- the driver's child lives, at an older spec
abbrev pub working : Daemon
working = record idle {
  children = ("driver", record { process = 1; command = "worker"; fingerprint = "older" }) ∷ [];
  applied_jobs_dir = ("driver", "/jobs") ∷ [];
}

abbrev pub on_small : Daemon → Machine Log
on_small d = record {
  daemon = d;
  disk = record { acks = []; drained = []; applied_compose = []; cache = wanted };
  host = [];
}
