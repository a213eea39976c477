-- ===== src/Daemon/Kept/Converge.antt =====
-- What the convergence of a Stack keeps, of a relation that the writes under its name keep.
use the_ozolith.Common.{
  String, refl, Bool, true, false, Option, none, some, List, [], ◌∷◌, nat_eq, string_eq, pair_eq,
  triple_eq, list_eq,
}
use the_ozolith.Common.Table.{put, update}
use the_ozolith.Common.Message.{Message}
use the_ozolith.Common.Keeps.{Preorder}
use the_ozolith.Common.Steady.{Steady, Steady-bind, steady_rules}
use the_ozolith.Daemon.{Env, WireStack, ComposeState, AppliedCompose, Container, Host, Machine}
use the_ozolith.Daemon.Base.{change}
use the_ozolith.Daemon.Compose.{
  with_records, write_ahead_compose, persist_applied_compose, compose_down,
}
use the_ozolith.Daemon.Kept.{
  Ground, Leaves, Steady-look, Steady-observe, Steady-lift, Steady-call, Steady-skip,
  Steady-emit_event, Steady-isolated, Steady-remove_single_image, Steady-compose_running,
  Steady-resolve_command, Steady-stop_process_child, Steady-teardown_all_forms,
  Steady-ensure_running,
}
use the_ozolith.Daemon.Kept.Spec.{
  Steady-current_drivers_hash, Steady-process_env, Steady-pull_stack_secrets,
  Steady-declared_but_unbuilt,
}
use the_ozolith.Daemon.Runs.{stack_jobs_dir}
use the_ozolith.Daemon.Process.{
  replace_child, launch, unless_blocked, unblocked, due, other_forms, wanted, converge_process,
}
use the_ozolith.Daemon.Containers.{
  bring_up, unless_running, converge_compose, converge_single_image, down_untracked, form_of,
  unless_busy, started, converge_container,
}

module _ {H : Type 0} (R : Preorder (Machine H)) (facts : Ground R) (host : Host H) (s : WireStack)
    (leaves : Leaves R facts host s.name) where
  Steady-note_dir :
      (dir : String)
      → Steady R (change (λ d. record d { applied_jobs_dir = put s.name dir d.applied_jobs_dir }))
  Steady-note_dir = leaves.note_dir

  Steady-down : Steady R (compose_down host s.name)
  Steady-down = leaves.down

  Steady-ahead : (r : AppliedCompose) → Steady R (write_ahead_compose host s.name r)
  Steady-ahead = leaves.ahead

  Steady-persist : Steady R (persist_applied_compose host)
  Steady-persist = leaves.persist

  ruleset converge_rules = (
    steady_rules, Steady-look, Steady-observe, Steady-lift, Steady-call, Steady-skip,
    Steady-emit_event, Steady-isolated, Steady-remove_single_image, Steady-stop_process_child,
    Steady-current_drivers_hash, Steady-pull_stack_secrets, Steady-declared_but_unbuilt,
    Steady-down, Steady-ahead, Steady-persist,
  )

  Steady-replace_child : (env : Env) (is_live : Bool) → Steady R (replace_child host s env is_live)
  Steady-replace_child env is_live = Steady-bind _ _ (search converge_rules) (λ _.
      Steady-bind _ _ (search converge_rules) (λ _.
        Steady-bind _ _ (Steady-ensure_running R facts host leaves s.command env)
          (λ _. Steady-note_dir (stack_jobs_dir s))))

  Steady-launch : (env : Env) (is_live : Bool) → Steady R (launch host s env is_live)
  Steady-launch env is_live =
      search (converge_rules, Steady-resolve_command, Steady-replace_child) depth 16

  Steady-unblocked :
      (env : Env) (argv : List String) (is_live : Bool)
      → Steady R (unblocked host s env argv is_live)
  Steady-unblocked env argv is_live = search (converge_rules, Steady-launch) depth 12

  Steady-unless_blocked :
      (env : Env) (argv : List String) (o : Option Message)
      → Steady R (unless_blocked host s env argv o)
  Steady-unless_blocked env argv none = Steady-unblocked env argv true
  Steady-unless_blocked env argv (some why) = search converge_rules

  Steady-due :
      (env : Env) (argv : List String) (is_live : Bool) → Steady R (due host s env argv is_live)
  Steady-due env argv false = Steady-unblocked env argv false
  Steady-due env argv true = search (converge_rules, Steady-unless_blocked)

  Steady-other_forms :
      (rows : List Container) (tracked : Bool) → Steady R (other_forms host s rows tracked)
  Steady-other_forms [] false = search converge_rules
  Steady-other_forms [] true = search converge_rules
  Steady-other_forms (row ∷ rows) tracked = search converge_rules

  Steady-wanted : Steady R (wanted host s)
  Steady-wanted =
      search (converge_rules, Steady-process_env, Steady-due, Steady-other_forms) depth 16

  pub Steady-converge_process : (want : Bool) → Steady R (converge_process host s want)
  unfolding converge_process
  Steady-converge_process want = search (converge_rules, Steady-wanted, Steady-teardown_all_forms)

  Steady-promote : Steady R (
      change (λ d.
        with_records
          (update s.name
            (λ (r : AppliedCompose). record r { state = ComposeState.applied })
            d.applied_compose)
          d))
  Steady-promote = leaves.promote _ (λ r. (refl, refl))

  Steady-bring_up : (lingers single : Bool) → Steady R (bring_up host s lingers single)
  Steady-bring_up lingers single = search (converge_rules, Steady-promote) depth 16

  Steady-unless_running : (up : Bool) → Steady R (unless_running host s up)
  Steady-unless_running true = search converge_rules
  Steady-unless_running false = search (converge_rules, Steady-bring_up)

  Steady-converge_compose : (lingers : Bool) → Steady R (converge_compose host s lingers)
  unfolding converge_compose
  Steady-converge_compose lingers =
      search (converge_rules, Steady-compose_running, Steady-unless_running, Steady-bring_up) depth
        12

  Steady-converge_single_image : (lingers : Bool) → Steady R (converge_single_image host s lingers)
  unfolding converge_single_image
  Steady-converge_single_image lingers = search converge_rules depth 16

  Steady-down_untracked : (rows : List Container) → Steady R (down_untracked host s rows)
  Steady-down_untracked [] = search converge_rules
  Steady-down_untracked (row ∷ rows) = search converge_rules

  Steady-form :
      (files : List (String × String)) (lingers : Bool) → Steady R (form_of host s lingers files)
  Steady-form [] lingers = Steady-converge_single_image lingers
  Steady-form (file ∷ rest) lingers = Steady-converge_compose lingers

  Steady-unless_busy :
      (lingers : Bool) (o : Option Message) → Steady R (unless_busy host s lingers o)
  Steady-unless_busy lingers none = Steady-form s.compose_files lingers
  Steady-unless_busy lingers (some why) = search converge_rules

  Steady-started : (lingers : Bool) → Steady R (started host s lingers)
  Steady-started false = Steady-form s.compose_files false
  Steady-started true = search (converge_rules, Steady-unless_busy)

  pub Steady-converge_container : (want : Bool) → Steady R (converge_container host s want)
  unfolding converge_container
  Steady-converge_container want =
      search (converge_rules, Steady-started, Steady-down_untracked, Steady-teardown_all_forms)
        depth 16
