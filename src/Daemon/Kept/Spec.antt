-- ===== src/Daemon/Kept/Spec.antt =====
-- What the gates before a (re)start keep: they call the host and set the memo of the pass.
use the_ozolith.Common.{
  String, refl, true, Option, none, some, [], ◌∷◌, nat_eq, string_eq, pair_eq, triple_eq, list_eq,
}
use the_ozolith.Common.Message.{Message}
use the_ozolith.Common.Keeps.{Preorder}
use the_ozolith.Common.Steady.{Steady, Steady-pure, Steady-raise, steady_rules}
use the_ozolith.Daemon.{Fault, Env, WireStack, Host, Machine}
use the_ozolith.Daemon.Base.{change}
use the_ozolith.Daemon.Kept.{
  Ground, Steady-look, Steady-observe, Steady-lift, Steady-call, Steady-skip, Steady-report,
}
use the_ozolith.Daemon.Spec.{
  memoized, current_drivers_hash, process_env, cannot_deploy, degraded, secrets_failed,
  secrets_if_any, pull_stack_secrets, declared_but_unbuilt,
}

module _ {H : Type 0} (R : Preorder (Machine H)) (facts : Ground R) (host : Host H) where
  Steady-memo :
      (hash : String) → Steady R (change (λ d. record d { verified_drivers_hash = some hash }))
  Steady-memo hash =
      facts.others _ (λ d. record { children = refl; jobs_dirs = refl; projects = refl })

  ruleset spec_rules = (
    steady_rules, Steady-look, Steady-observe, Steady-lift, Steady-call, Steady-skip, Steady-report,
    Steady-memo,
  )

  Steady-memoized : (o : Option String) → Steady R (memoized host o)
  Steady-memoized none = search spec_rules depth 12
  Steady-memoized (some hash) = search spec_rules depth 12

  pub Steady-current_drivers_hash : Steady R (current_drivers_hash host)
  unfolding current_drivers_hash
  Steady-current_drivers_hash = search (spec_rules, Steady-memoized) depth 12

  pub Steady-process_env : (s : WireStack) → Steady R (process_env host s)
  unfolding process_env
  Steady-process_env s = search (spec_rules, Steady-current_drivers_hash) depth 12

  Steady-cannot_deploy :
      (s : WireStack) (why : Message) (e : Fault) → Steady R (cannot_deploy host s why e)
  Steady-cannot_deploy s why e = search spec_rules depth 12

  Steady-degraded : (s : WireStack) (e : Fault) → Steady R (degraded host s e)
  Steady-degraded s e = search (spec_rules, Steady-cannot_deploy) depth 12

  Steady-secrets_failed : (s : WireStack) (e : Fault) → Steady R (secrets_failed host s e)
  Steady-secrets_failed s (Fault.control_unreachable m) = search Steady-degraded
  Steady-secrets_failed s (Fault.control_error m) = search Steady-degraded
  Steady-secrets_failed s (Fault.secret_name_error m) = search Steady-cannot_deploy
  Steady-secrets_failed s (Fault.os_error m) = search Steady-cannot_deploy
  Steady-secrets_failed s (Fault.docker_error m) = search Steady-raise
  Steady-secrets_failed s (Fault.value_error m) = search Steady-raise
  Steady-secrets_failed s (Fault.launcher_missing m) = search Steady-raise
  Steady-secrets_failed s (Fault.runtime_error m) = search Steady-raise

  Steady-secrets_of : (s : WireStack) (secrets : Env) → Steady R (secrets_if_any host s secrets)
  Steady-secrets_of s [] = Steady-pure true
  Steady-secrets_of s (row ∷ rows) = search (spec_rules, Steady-secrets_failed) depth 12

  pub Steady-pull_stack_secrets : (s : WireStack) → Steady R (pull_stack_secrets host s)
  unfolding pull_stack_secrets
  Steady-pull_stack_secrets s = Steady-secrets_of s s.secrets

  pub Steady-declared_but_unbuilt : (tag : String) → Steady R (declared_but_unbuilt host tag)
  unfolding declared_but_unbuilt
  Steady-declared_but_unbuilt tag = search spec_rules depth 12
