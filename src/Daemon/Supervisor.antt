-- ===== src/Daemon/Supervisor.antt =====
-- stacks.py: ProcessSupervisor, the daemon's children, one for each running process Stack.
use the_ozolith.Common.{
  ℕ, String, Bool, true, false, not, ◌&&◌, Option, none, some, List, [], ◌∷◌, map, if◌then◌else◌,
  ◌==◌, nat_eq, string_eq, pair_eq, triple_eq, list_eq,
}
use the_ozolith.Common.Table.{find, put, delete}
use the_ozolith.Common.Exec.{pure, ◌>>=◌, ◌>>◌}
use the_ozolith.Daemon.{Child, Daemon, Env, Host}
use the_ozolith.Daemon.Base.{Act, merge, call, look, observe, lift, change, skip, each}

abbrev pub driver_launcher : String
driver_launcher = "theozolith-driver"

-- _FINGERPRINT_REDACT
abbrev redacted : String × String → String × String
redacted (key, value) = (key, if key == "THEOZOLITH_NODE_TOKEN" then "<redacted>" else value)

abbrev pub exited : Option ℕ → Bool
exited none = false
exited (some code) = true

abbrev pub noted_exit : String → ℕ → Daemon → Daemon
noted_exit name code d = record d { last_exit = put name code d.last_exit }

abbrev pub forget_child : String → Daemon → Daemon
forget_child name d = record d { children = delete name d.children }

abbrev pub new_child : String → String → String → ℕ → Daemon → Daemon
new_child name command fingerprint process d = record d {
  children =
      put name (record { process = process; command = command; fingerprint = fingerprint })
        d.children;
}

module _ {H : Type 0} (host : Host H) where
  open host use {poll}

  -- `spec_fingerprint`
  unfoldable pub spec_fingerprint : String → Env → String
  spec_fingerprint command env = host.spec_digest command (map redacted env)

  abbrev pub lives : Option Child → H → Bool
  lives none h = false
  lives (some c) h = not (exited (poll c.process h))

  unfoldable pub alive : String → Daemon → H → Bool
  alive name d h = lives (find name d.children) h

  abbrev pub is_current : Option Child → String → H → Bool
  is_current none fingerprint h = false
  is_current (some c) fingerprint h =
      not (exited (poll c.process h)) && c.fingerprint == fingerprint

  unfoldable pub needs_restart : String → String → Env → Daemon → H → Bool
  needs_restart name command env d h =
      not (is_current (find name d.children) (spec_fingerprint command env) h)

  abbrev pub resolved : List String → Act H (List String)
  resolved [] = pure []
  resolved (program ∷ args) =
      if program == driver_launcher
      then (do target ← call host.launcher_path; pure (target ∷ args))
      else pure (program ∷ args)

  -- `resolve_command`: `launcher_path` raises LauncherMissing
  unfoldable pub resolve_command : String → Act H (List String)
  resolve_command command = do argv ← lift (host.split command); resolved argv

  -- the exit status; a process that is gone is not signalled
  abbrev pub end_process : ℕ → ℕ → Option ℕ → Act H ℕ
  end_process process grace (some code) = pure code
  end_process process grace none = call (host.kill_tree process grace)

  abbrev pub stop_child : String → ℕ → Option Child → Act H (Unit {0})
  stop_child name grace none = skip
  stop_child name grace (some c) = do
    change (forget_child name)
    status ← observe (λ d. poll c.process)
    code ← end_process c.process grace status
    change (noted_exit name code)

  unfoldable pub stop : String → ℕ → Act H (Unit {0})
  stop name grace = do child ← look (λ d. find name d.children); stop_child name grace child

  unfoldable pub stop_all : ℕ → Act H (Unit {0})
  unfolding stop
  stop_all grace = do
    children ← look (λ d. map (λ (row : String × Child). row.0) d.children)
    each (λ name. stop name grace) children

  -- an exited child is forgotten, a live one of another spec is stopped
  abbrev pub displace : String → Option Child → Option ℕ → Act H (Unit {0})
  displace name none status = skip
  displace name (some c) none = stop name 30
  displace name (some c) (some code) = change (λ d. forget_child name (noted_exit name code d))

  abbrev pub status_of : Option Child → H → Option ℕ
  status_of none h = none
  status_of (some c) h = poll c.process h

  -- the environment of a child: the daemon's own, under the Stack's
  abbrev pub child_env : Env → Env
  child_env env = merge host.environ env

  abbrev pub relaunch : String → String → Env → Act H (Unit {0})
  relaunch name command env = do
    argv ← resolve_command command
    child ← look (λ d. find name d.children)
    status ← observe (λ d. status_of child)
    displace name child status
    process ← call (host.popen argv (child_env env))
    change (new_child name command (spec_fingerprint command env) process)

  unfoldable pub ensure_running : String → String → Env → Act H (Unit {0})
  unfolding needs_restart resolve_command stop
  ensure_running name command env = do
    due ← observe (needs_restart name command env)
    if due then relaunch name command env else skip

  -- `status`: the state alone
  unfoldable pub status : String → Daemon → H → String
  unfolding alive
  status name d h = if alive name d h then "running" else "stopped"
