-- ===== src/Daemon/Base.antt =====
-- daemon.py: the actions that its methods are composed of, the state files, and the posting of summaries.
use the_ozolith.Common.{
  ℕ, String, ◌&&◌, Option, none, some, List, [], ◌∷◌, ◌++◌, ltb, if◌then◌else◌, ◌==◌, nat_eq,
  string_eq, pair_eq, triple_eq, list_eq,
}
use the_ozolith.Common.Message.{Message, lit}
use the_ozolith.Common.Exec.{Result, ok, Exec, pure, ◌>>◌, catch}
use the_ozolith.Common.Table.{put}
use the_ozolith.Daemon.{Env, Fault, Daemon, Disk, StateFile, Event, Host, Machine}
use Prim.Native.String

-- `str(exc)`
abbrev pub text_of : Fault → Message
text_of (Fault.docker_error m) = m
text_of (Fault.control_unreachable m) = m
text_of (Fault.control_error m) = m
text_of (Fault.secret_name_error m) = m
text_of (Fault.os_error m) = m
text_of (Fault.value_error m) = m
text_of (Fault.launcher_missing m) = m
text_of (Fault.runtime_error m) = m

-- `type(exc).__name__`
abbrev pub class_of : Fault → String
class_of (Fault.docker_error m) = "DockerError"
class_of (Fault.control_unreachable m) = "ControlUnreachable"
class_of (Fault.control_error m) = "ControlError"
class_of (Fault.secret_name_error m) = "SecretNameError"
class_of (Fault.os_error m) = "OSError"
class_of (Fault.value_error m) = "ValueError"
class_of (Fault.launcher_missing m) = "LauncherMissing"
class_of (Fault.runtime_error m) = "RuntimeError"

-- texts that name files, containers and projects
abbrev pub concat : String → String → String
concat s t = String.◌++◌ s t

-- `{**a, **b}`
abbrev pub merge : Env → Env → Env
merge a [] = a
merge a ((k, v) ∷ b) = merge (put k v a) b

abbrev pub Act : Type 0 → Type 0 → Type 0
Act H A = Exec Fault (Machine H) A

module _ {H A : Type 0} where
  -- a call of the host
  unfoldable pub call : Exec Fault H A → Act H A
  call m w = let (r, h) = m w.host in (r, record w { host = h })

  -- a call that never raises
  unfoldable pub ask : (H → A × H) → Act H A
  ask m w = let (a, h) = m w.host in (ok a, record w { host = h })

  unfoldable pub look : (Daemon → A) → Act H A
  look f w = (ok (f w.daemon), w)

  -- a reading of the host's state
  unfoldable pub observe : (Daemon → H → A) → Act H A
  observe f w = (ok (f w.daemon w.host), w)

  unfoldable pub lift : Result Fault A → Act H A
  lift r w = (r, w)

module _ {H : Type 0} where
  unfoldable pub change : (Daemon → Daemon) → Act H (Unit {0})
  change f w = (ok tt, record w { daemon = f w.daemon })

  unfoldable pub on_disk : (Daemon → Disk → Disk) → Act H (Unit {0})
  on_disk f w = (ok tt, record w { disk = f w.daemon w.disk })

  abbrev pub skip : Act H (Unit {0})
  skip = pure tt

  -- a loop that an exception ends
  unfoldable pub each : {A : Type 0} → (A → Act H (Unit {0})) → List A → Act H (Unit {0})
  each body [] = skip
  each body (x ∷ xs) = body x >> each body xs

-- a value of the node's own, off the shipped default, wins over the one that rides desired state
abbrev pub wire_setting : Option ℕ → ℕ → ℕ → ℕ
wire_setting none own shipped = own
wire_setting (some t) own shipped = if own == shipped && ltb 0 t then t else own

-- DEFAULT_STOP_GRACE_SECONDS and DEFAULT_HEARTBEAT_SECONDS
abbrev pub default_stop_grace_seconds : ℕ
default_stop_grace_seconds = 30

abbrev pub default_heartbeat_seconds : ℕ
default_heartbeat_seconds = 60

module _ {H : Type 0} (host : Host H) where
  abbrev pub stop_grace_seconds : Daemon → ℕ
  stop_grace_seconds d =
      wire_setting d.desired.stop_grace_seconds host.config.stop_grace_seconds
        default_stop_grace_seconds

  -- `_atomic_json`: the file is replaced whole or left as it is
  unfoldable pub atomic_json : StateFile → (Daemon → Disk → Disk) → Act H (Unit {0})
  atomic_json file f = call (host.replace file) >> on_disk f

  abbrev swallow : Fault → Act H (Unit {0})
  swallow e = skip

  -- `_emit_event`: best effort
  unfoldable pub emit_event : Event → Act H (Unit {0})
  emit_event e = if host.has_client then catch (call (host.emit_event e)) swallow else skip

  abbrev pub emit_error : String → Message → Act H (Unit {0})
  emit_error name m = emit_event (Event.error name m)

  -- an `except Exception` handler that reports and goes on
  abbrev pub report : Message → Fault → Act H (Unit {0})
  report what e = emit_error (class_of e) (what ++ text_of e)

  -- `_isolated`
  unfoldable pub isolated : Message → Act H (Unit {0}) → Act H (Unit {0})
  isolated description action = catch action (report (description ++ lit ": cleanup failed: " ∷ []))

  -- `_ack`
  unfoldable pub ack : Option ℕ → Act H (Unit {0})
  ack none = skip
  ack (some i) = do
    change (λ d. record d { completed = d.completed ++ i ∷ [] })
    atomic_json StateFile.acks_path (λ d f. record f { acks = d.completed })
