-- ===== src/Daemon/Kept.antt =====
-- What the daemon's methods keep, of a relation that the writes under a Stack's name keep.
pub mod Spec
pub mod Converge
pub mod Beat
pub mod Pass
pub mod Reconcile
use the_ozolith.Common.{
  ℕ, ◌-◌, String, ◌≡◌, refl, Option, none, some, List, [], ◌∷◌, arith, nat_eq, string_eq, pair_eq,
  triple_eq, list_eq,
}
use the_ozolith.Common.Table.{put, update}
use the_ozolith.Common.Message.{Message}
use the_ozolith.Common.Exec.{Result, Exec, ◌>>=◌}
use the_ozolith.Common.Keeps.{Preorder}
use the_ozolith.Common.Steady.{Steady, Steady-pure, Steady-catch, Steady-bind, steady_rules}
use the_ozolith.Daemon.{
  Fault, Env, AppliedCompose, Child, Daemon, Disk, Container, Event, StateFile, Host, Machine,
}
use the_ozolith.Daemon.Base.{
  Act, call, ask, look, observe, lift, change, on_disk, atomic_json, skip, each, emit_event,
  isolated, report,
}
use the_ozolith.Daemon.Supervisor.{
  stop, stop_child, end_process, forget_child, noted_exit, new_child, displace, resolved,
  resolve_command, ensure_running,
}
use the_ozolith.Daemon.Compose.{
  write_ahead_compose, compose_running, compose_down, with_records, persist_applied_compose,
}
use the_ozolith.Daemon.Teardown.{
  remove_owned_run_containers, forget_jobs_dir, stop_process_child, remove_rows,
  remove_single_image, teardown_all_forms,
}

-- nothing under any Stack's name differs
pub record IsApart (d e : Daemon) : Type 0 where
  pub children : d.children ≡ e.children
  pub jobs_dirs : d.applied_jobs_dir ≡ e.applied_jobs_dir
  pub projects : d.applied_compose ≡ e.applied_compose

module _ {H : Type 0} (R : Preorder (Machine H)) where
  -- calls, and the writes that are under no Stack's name
  pub record Ground : Type 1 where
    pub calls : (A : Type 0) (m : Exec Fault H A) → Steady R (call m)
    pub asks : (A : Type 0) (m : H → A × H) → Steady R (ask m)
    pub others : (f : Daemon → Daemon) → ((d : Daemon) → IsApart d (f d)) → Steady R (change f)
    pub files :
        (f : Daemon → Disk → Disk)
        → ((d : Daemon) (k : Disk) → k.applied_compose ≡ (f d k).applied_compose)
        → Steady R (on_disk f)

  pub Steady-look : {A : Type 0} (f : Daemon → A) → Steady R (look f)
  unfolding look
  Steady-look f = record { at = λ w. R.same w }

  pub Steady-observe : {A : Type 0} (f : Daemon → H → A) → Steady R (observe f)
  unfolding observe
  Steady-observe f = record { at = λ w. R.same w }

  pub Steady-lift : {A : Type 0} (r : Result Fault A) → Steady R (lift r)
  unfolding lift
  Steady-lift r = record { at = λ w. R.same w }

  module _ (ground_facts : Ground) (host : Host H) where
    pub Steady-call : {A : Type 0} (m : Exec Fault H A) → Steady R (call m)
    Steady-call {A} m = ground_facts.calls A m

    pub Steady-ask : {A : Type 0} (m : H → A × H) → Steady R (ask m)
    Steady-ask {A} m = ground_facts.asks A m

    pub Steady-skip : Steady R skip
    Steady-skip = Steady-pure tt

    ruleset leaf_rules = (steady_rules, Steady-look, Steady-observe, Steady-lift, Steady-call)

    pub Steady-atomic_json :
        (file : StateFile) (f : Daemon → Disk → Disk)
        → ((d : Daemon) (k : Disk) → k.applied_compose ≡ (f d k).applied_compose)
        → Steady R (atomic_json host file f)
    unfolding atomic_json
    Steady-atomic_json file f k =
        Steady-bind _ _ (Steady-call (host.replace file)) (λ _. ground_facts.files f k)

    pub Steady-emit_event : (e : Event) → Steady R (emit_event host e)
    unfolding emit_event
    Steady-emit_event e = search leaf_rules

    pub Steady-report : (what : Message) (e : Fault) → Steady R (report host what e)
    Steady-report what e = Steady-emit_event _

    pub Steady-isolated :
        (what : Message) (m : Act H (Unit {0})) → Steady R m → Steady R (isolated host what m)
    unfolding isolated
    Steady-isolated what m k = Steady-catch m _ k (Steady-report _)

    pub Steady-each :
        {A : Type 0} (body : A → Act H (Unit {0})) (xs : List A)
        → ((x : A) → Steady R (body x))
        → Steady R (each body xs)
    unfolding each
    Steady-each body [] k = Steady-skip
    Steady-each body (x ∷ xs) k = Steady-bind _ _ (k x) (λ _. Steady-each body xs k)

    Steady-end_process : (p grace : ℕ) (o : Option ℕ) → Steady R (end_process host p grace o)
    Steady-end_process p grace none = search leaf_rules
    Steady-end_process p grace (some code) = search leaf_rules

    Steady-remove_rows :
        (name : String) (rows : List Container) → Steady R (remove_rows host name rows)
    Steady-remove_rows name [] = search leaf_rules
    Steady-remove_rows name (row ∷ rows) = search leaf_rules

    pub Steady-remove_single_image : (name : String) → Steady R (remove_single_image host name)
    unfolding remove_single_image
    Steady-remove_single_image name = search (leaf_rules, Steady-remove_rows)

    pub Steady-remove_owned_run_containers :
        (name : String) → Steady R (remove_owned_run_containers host name)
    unfolding remove_owned_run_containers
    Steady-remove_owned_run_containers name = search (leaf_rules, Steady-each)

    pub Steady-compose_running : (name : String) → Steady R (compose_running host name)
    unfolding compose_running
    Steady-compose_running name = search leaf_rules

    Steady-resolved : (argv : List String) → Steady R (resolved host argv)
    Steady-resolved [] = search leaf_rules
    Steady-resolved (program ∷ args) = search leaf_rules

    pub Steady-resolve_command : (command : String) → Steady R (resolve_command host command)
    unfolding resolve_command
    Steady-resolve_command command = search (leaf_rules, Steady-resolved)

    -- the writes under a Stack's name
    pub record Leaves (name : String) : Type 0 where
      pub forget : Steady R (change (forget_child name))
      pub noted : (code : ℕ) → Steady R (change (noted_exit name code))
      pub displaced :
          (code : ℕ) → Steady R (change (λ d. forget_child name (noted_exit name code d)))
      pub born :
          (command fingerprint : String) (process : ℕ)
          → Steady R (change (new_child name command fingerprint process))
      pub forget_dir : Steady R (change (forget_jobs_dir name))
      pub note_dir :
          (dir : String)
          → Steady R (change (λ d. record d { applied_jobs_dir = put name dir d.applied_jobs_dir }))
      pub ahead : (r : AppliedCompose) → Steady R (write_ahead_compose host name r)
      pub down : Steady R (compose_down host name)
      pub promote :
          (f : AppliedCompose → AppliedCompose)
          → ((r : AppliedCompose) → ((f r).files ≡ r.files) × ((f r).fingerprint ≡ r.fingerprint))
          → Steady R (change (λ d. with_records (update name f d.applied_compose) d))
      pub persist : Steady R (persist_applied_compose host)

    module _ {name : String} (leaves : Leaves name) where
      Steady-forget : Steady R (change (forget_child name))
      Steady-forget = leaves.forget

      Steady-noted : (code : ℕ) → Steady R (change (noted_exit name code))
      Steady-noted = leaves.noted

      Steady-born :
          (command fingerprint : String) (process : ℕ)
          → Steady R (change (new_child name command fingerprint process))
      Steady-born = leaves.born

      Steady-forget_dir : Steady R (change (forget_jobs_dir name))
      Steady-forget_dir = leaves.forget_dir

      Steady-down : Steady R (compose_down host name)
      Steady-down = leaves.down

      ruleset name_rules =
          (leaf_rules, Steady-forget, Steady-noted, Steady-born, Steady-forget_dir, Steady-down)

      Steady-stop_child : (grace : ℕ) (c : Option Child) → Steady R (stop_child host name grace c)
      Steady-stop_child grace none = search leaf_rules
      Steady-stop_child grace (some c) = search (name_rules, Steady-end_process) depth 12

      pub Steady-stop : (grace : ℕ) → Steady R (stop host name grace)
      unfolding stop
      Steady-stop grace = search (leaf_rules, Steady-stop_child)

      pub Steady-stop_process_child : Steady R (stop_process_child host name)
      unfolding stop_process_child
      Steady-stop_process_child =
          search (name_rules, Steady-stop, Steady-remove_owned_run_containers) depth 12

      pub Steady-teardown_all_forms : Steady R (teardown_all_forms host name)
      unfolding teardown_all_forms
      Steady-teardown_all_forms =
          search (name_rules, Steady-stop_process_child, Steady-remove_single_image) depth 12

      Steady-displace :
          (c : Option Child) (status : Option ℕ) → Steady R (displace host name c status)
      Steady-displace none status = search leaf_rules
      Steady-displace (some c) none = Steady-stop 30
      Steady-displace (some c) (some code) = leaves.displaced code

      pub Steady-ensure_running :
          (command : String) (env : Env) → Steady R (ensure_running host name command env)
      unfolding ensure_running
      Steady-ensure_running command env =
          search (name_rules, Steady-resolve_command, Steady-displace) depth 12
