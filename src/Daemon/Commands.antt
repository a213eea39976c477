-- ===== src/Daemon/Commands.antt =====
-- daemon.py: the commands of a heartbeat's answer, queued behind a Run in flight, and the product pin.
use the_ozolith.Common.{
  ℕ, String, Bool, true, false, not, ◌&&◌, ◌||◌, Option, none, some, List, [], ◌∷◌, map,
  if◌then◌else◌, ◌==◌, nat_eq, string_eq, pair_eq, triple_eq, list_eq, contains, set_add,
}
use the_ozolith.Common.Table.{put, delete}
use the_ozolith.Common.Message.{Message, lit, say}
use the_ozolith.Common.Exec.{pure, raise, ◌>>=◌, ◌>>◌, catch}
use the_ozolith.Daemon.{Fault, Daemon, Command, Host}
use the_ozolith.Daemon.Base.{
  Act, call, look, observe, change, skip, report, ack, stop_grace_seconds,
}
use the_ozolith.Daemon.Supervisor.{stop_all}
use the_ozolith.Daemon.Runs.{inflight_blocker}
use the_ozolith.Daemon.Teardown.{drain, recycle}
use the_ozolith.Daemon.Spec.{images}
use the_ozolith.Daemon.{Image}

-- the verbs that wait for a Run
abbrev pub waits : Command → Bool
waits c = contains ("recycle" ∷ "update" ∷ "restart" ∷ []) c.verb && not c.force

-- an empty target is none
abbrev pub target_of : Command → Option String
target_of c = elim c.target [ none ↦ none | some t ↦ if t == "" then none else some t ]

-- a recycle waits for its own target, the others for every Stack
abbrev pub scope_of : Command → Option (List String)
scope_of c =
    if c.verb == "recycle"
    then elim (target_of c) [ none ↦ none | some t ↦ some (t ∷ []) ]
    else none

abbrev image_name : Image → String
image_name i = i.name

abbrev add_all : List String → List String → List String
add_all names [] = names
add_all names (n ∷ ns) = add_all (set_add names n) ns

abbrev pub rebuilt : Option String → Daemon → Daemon
rebuilt none d = record d {
  rebuild_targets = add_all d.rebuild_targets (map image_name (images d));
}
rebuilt (some t) d = record d { rebuild_targets = set_add d.rebuild_targets t }

abbrev pub update_failed : String → Message
update_failed pin = lit "product update to " ∷ lit pin ∷ say " failed: "

module _ {H : Type 0} (host : Host H) where
  abbrev pub installed : Bool → Act H (Unit {0})
  installed false = raise (Fault.runtime_error (say "pip install failed"))
  installed true = do change (λ d. record d { update_done = true }); call host.execv

  abbrev pub stop_and_install : List String → Act H (Unit {0})
  stop_and_install targets = do
    grace ← look (stop_grace_seconds host)
    stop_all host grace
    done ← call (host.pip_install targets)
    installed done

  abbrev pub when_writable : List String → Option Message → Act H (Unit {0})
  when_writable targets none = stop_and_install targets
  when_writable targets (some why) =
      raise (Fault.runtime_error (lit "product venv is not writable: " ∷ why))

  abbrev pub with_targets : List String → Act H (Unit {0})
  with_targets [] = raise (Fault.runtime_error (say "nothing to install; not stopping the tree"))
  with_targets (t ∷ ts) = do reason ← call host.venv_writable; when_writable (t ∷ ts) reason

  -- `_install_product`
  unfoldable pub install_product : String → Act H (Unit {0})
  install_product pin = do targets ← call (host.update_targets pin); with_targets targets

  abbrev pub set_blocker : Option Message → Act H (Unit {0})
  set_blocker m = change (λ d. record d { update_blocker = m })

  abbrev pub attempt_update : String → Act H (Unit {0})
  attempt_update pin = do
    set_blocker none
    change (λ d. record d { product_attempted = true })
    catch (install_product pin) (report host (update_failed pin))

  abbrev pub update_unless : String → Option Message → Act H (Unit {0})
  update_unless pin none = attempt_update pin
  update_unless pin (some why) = set_blocker (some why)

  abbrev pub blocker_unless : Bool → Daemon → H → Option Message
  blocker_unless force d h = if force then none else inflight_blocker host none d h

  abbrev pub pinned : Bool → String → Act H (Unit {0})
  pinned force pin =
      if pin == "" || pin == host.config.version
      then set_blocker none
      else (do blocker ← observe (blocker_unless force); update_unless pin blocker)

  -- `_converge_product`
  unfoldable pub converge_product : Bool → Act H (Unit {0})
  unfolding install_product
  converge_product force = do
    over ← look (λ d. d.update_done || d.product_attempted)
    pin ← look (λ d. d.desired.product_version)
    if over then skip else pinned force pin

  -- the verbs that are acked before they are over
  abbrev pub nudge : Command → Act H Bool
  nudge c = do ack host c.id; converge_product c.force; pure true

  abbrev pub restart : Command → Act H Bool
  restart c = do
    grace ← look (stop_grace_seconds host)
    stop_all host grace
    ack host c.id
    call host.execv
    pure true

  -- the others: whether the ack is still due
  abbrev pub perform : Command → Act H Bool
  perform c =
      if c.verb == "drain"
      then (do drain host (target_of c); pure false)
      else if c.verb == "recycle"
      then (do recycle host (target_of c); pure false)
      else if c.verb == "rebuild"
      then (do change (rebuilt (target_of c)); pure false)
      else if c.verb == "update"
      then nudge c
      else if c.verb == "restart"
      then restart c
      else pure false

  -- `except Exception`: no ack, so the command is delivered again
  abbrev pub failed : Command → Fault → Act H Bool
  failed c e = do report host (lit "command (" ∷ lit c.verb ∷ say ") failed: ") e; pure true

  abbrev pub ack_unless : Command → Bool → Act H (Unit {0})
  ack_unless c true = skip
  ack_unless c false = ack host c.id

  abbrev pub run_command : Command → Act H Bool
  run_command c = do over ← catch (perform c) (failed c); ack_unless c over; pure true

  abbrev pub undefer : Option ℕ → Daemon → Daemon
  undefer none d = d
  undefer (some i) d = record d { deferrals = delete i d.deferrals }

  abbrev pub defer : ℕ → Message → Act H Bool
  defer i why = do change (λ d. record d { deferrals = put i why d.deferrals }); pure false

  -- a command without an id is not deferred
  abbrev pub unless_deferred : Command → Option ℕ → Option Message → Act H Bool
  unless_deferred c (some i) (some why) = defer i why
  unless_deferred c (some i) none = do change (undefer (some i)); run_command c
  unless_deferred c none blocker = do change (undefer none); run_command c

  abbrev pub blocker_of : Command → Daemon → H → Option Message
  blocker_of c d h = if waits c then inflight_blocker host (scope_of c) d h else none

  -- `_execute`: false is a deferral
  unfoldable pub execute : Command → Act H Bool
  unfolding converge_product
  execute c = do blocker ← observe (blocker_of c); unless_deferred c c.id blocker

  abbrev pub go_on : Act H (Unit {0}) → Bool → Act H (Unit {0})
  go_on rest true = rest
  go_on rest false = skip

  -- the loop of `once`: a deferred command ends it
  unfoldable pub execute_all : List Command → Act H (Unit {0})
  unfolding execute
  execute_all [] = skip
  execute_all (c ∷ cs) = do executed ← execute c; go_on (execute_all cs) executed
