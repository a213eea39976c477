-- ===== src/Daemon/Undisturbed.antt =====
-- daemon.py: a change of a process Stack waits for the Run of its live child.
use the_ozolith.Common.{
  String, ◌≡◌, refl, subst, ◌∙◌, ◌≢◌, inl, inr, Bool, true, false, ◌&&◌, Option, none, some, List,
  [], ◌∷◌, Bool-cases, nat_eq, string_eq, pair_eq, triple_eq, list_eq, ==_refl, ==_false_of_ne,
}
use the_ozolith.Common.Table.{Table}
use the_ozolith.Common.Message.{Message}
use the_ozolith.Common.Exec.{Result, ok, err, Exec, pure, continue, ◌>>=◌}
use the_ozolith.Common.Keeps.{Preorder}
use the_ozolith.Common.Steady.{Steady, Steady-bind, Steady-pure, steady_rules}
use the_ozolith.Daemon.{
  Fault, Env, WireStack, AppliedCompose, Daemon, Container, StateFile, Host, Machine,
}
use the_ozolith.Daemon.Base.{concat, call, look, observe, lift, change, on_disk, atomic_json}
use the_ozolith.Daemon.Supervisor.{needs_restart}
use the_ozolith.Daemon.Runs.{inflight_blocker, get_or_empty}
use the_ozolith.Daemon.Compose.{persist_applied_compose, down, compose_down}
use the_ozolith.Daemon.Teardown.{
  stack_container_prefix, remove_rows, remove_single_image, teardown_container_forms,
}
use the_ozolith.Daemon.Spec.{memoized, current_drivers_hash, process_env, invokes_driver}
use the_ozolith.Daemon.Process.{
  argv_of, unless_blocked, due, other_forms, sole_form, imaged, with_argv, converge_process,
}
use the_ozolith.Daemon.Busy.{InFlight, IsDesired, inflight_blocker_lem}

and_false : (b : Bool) → (b && false) ≡ false
and_false true = refl
and_false false = refl

module _ {H O : Type 0} (host : Host H) (seen : H → O) where
  -- what a call leaves of what is seen
  abbrev pub IsUnseen : {A : Type 0} → Exec Fault H A → Type 0
  IsUnseen m = (h : H) → seen h ≡ seen (m h).1

  -- what is seen of the host is not about Stack containers, compose projects and state files
  pub record Elsewhere : Type 0 where
    pub verified : IsUnseen host.verify_applied_drivers
    pub listed : (name : Option String) → IsUnseen (host.stack_containers name)
    pub removed : (name : String) → IsUnseen (host.remove (concat stack_container_prefix name))
    pub composed :
        (project : String) (files : List String) (verb : String)
        → IsUnseen (host.compose project files verb)
    pub replaced : (file : StateFile) → IsUnseen (host.replace file)

  -- no child was started, stopped or forgotten
  pub record IsUndisturbed (w u : Machine H) : Type 0 where
    pub children : w.daemon.children ≡ u.daemon.children
    pub jobs_dirs : w.daemon.applied_jobs_dir ≡ u.daemon.applied_jobs_dir
    pub exits : w.daemon.last_exit ≡ u.daemon.last_exit
    pub host_seen : seen w.host ≡ seen u.host

  abbrev undisturbed : Preorder (Machine H)
  undisturbed = record {
    Rel = IsUndisturbed;
    same = λ w. record { children = refl; jobs_dirs = refl; exits = refl; host_seen = refl };
    along = λ w u v h k. record {
      children = h.children ∙ k.children;
      jobs_dirs = h.jobs_dirs ∙ k.jobs_dirs;
      exits = h.exits ∙ k.exits;
      host_seen = h.host_seen ∙ k.host_seen;
    };
  }

  Steady-seen : {A : Type 0} (m : Exec Fault H A) → IsUnseen m → Steady undisturbed (call m)
  unfolding call
  Steady-seen m k = record {
    at = λ w. record { children = refl; jobs_dirs = refl; exits = refl; host_seen = k w.host };
  }

  Steady-look : {A : Type 0} (f : Daemon → A) → Steady undisturbed (look f)
  unfolding look
  Steady-look f = record { at = λ w. undisturbed.same w }

  Steady-lift : {A : Type 0} (r : Result Fault A) → Steady undisturbed (lift r)
  unfolding lift
  Steady-lift r = record { at = λ w. undisturbed.same w }

  Steady-memo :
      (hash : String)
      → Steady undisturbed (change (λ d. record d { verified_drivers_hash = some hash }))
  unfolding change
  Steady-memo hash = record {
    at = λ w. record { children = refl; jobs_dirs = refl; exits = refl; host_seen = refl };
  }

  Steady-records :
      (f : Daemon → Table String AppliedCompose)
      → Steady undisturbed (change (λ d. record d { applied_compose = f d }))
  unfolding change
  Steady-records f = record {
    at = λ w. record { children = refl; jobs_dirs = refl; exits = refl; host_seen = refl };
  }

  module _ (elsewhere : Elsewhere) where
    Steady-memoized : (o : Option String) → Steady undisturbed (memoized host o)
    Steady-memoized none =
        Steady-bind _ _ (Steady-seen _ elsewhere.verified)
          (λ hash. Steady-bind _ _ (Steady-memo hash) (λ _. Steady-pure hash))
    Steady-memoized (some hash) = Steady-pure hash

    Steady-process_env : (s : WireStack) → Steady undisturbed (process_env host s)
    unfolding process_env current_drivers_hash
    Steady-process_env s = search (steady_rules, Steady-look, Steady-lift, Steady-memoized) depth 12

    Steady-persist : Steady undisturbed (persist_applied_compose host)
    unfolding persist_applied_compose atomic_json on_disk
    Steady-persist =
        Steady-bind _ _
          (Steady-seen (host.replace StateFile.applied_compose_path) (elsewhere.replaced _))
          (λ _. record {
            at = λ w. record { children = refl; jobs_dirs = refl; exits = refl; host_seen = refl };
          })

    Steady-down_of :
        (name : String) (o : Option AppliedCompose) → Steady undisturbed (down host name o)
    Steady-down_of name none = Steady-pure tt
    Steady-down_of name (some r) =
        Steady-bind _ _ (Steady-seen _ (elsewhere.composed _ r.files "down"))
          (λ _. Steady-bind _ _ (Steady-records _) (λ _. Steady-persist))

    Steady-compose_down : (name : String) → Steady undisturbed (compose_down host name)
    unfolding compose_down
    Steady-compose_down name = Steady-bind _ _ (Steady-look _) (Steady-down_of name)

    Steady-remove_rows :
        (name : String) (rows : List Container) → Steady undisturbed (remove_rows host name rows)
    Steady-remove_rows name [] = Steady-pure tt
    Steady-remove_rows name (row ∷ rows) = Steady-seen _ (elsewhere.removed name)

    Steady-remove_single_image :
        (name : String) → Steady undisturbed (remove_single_image host name)
    unfolding remove_single_image
    Steady-remove_single_image name =
        Steady-bind _ _ (Steady-seen _ (elsewhere.listed _)) (Steady-remove_rows name)

    Steady-forms : (name : String) → Steady undisturbed (teardown_container_forms host name)
    Steady-forms name =
        Steady-bind _ _ (Steady-remove_single_image name) (λ _. Steady-compose_down name)

    Steady-other_forms :
        (s : WireStack) (rows : List Container) (tracked : Bool)
        → Steady undisturbed (other_forms host s rows tracked)
    Steady-other_forms s [] false = Steady-pure tt
    Steady-other_forms s [] true = Steady-forms s.name
    Steady-other_forms s (row ∷ rows) tracked = Steady-forms s.name

    Steady-sole_form : (s : WireStack) → Steady undisturbed (sole_form host s)
    Steady-sole_form s =
        Steady-bind _ _ (Steady-seen _ (elsewhere.listed _))
          (λ rows. Steady-bind _ _ (Steady-look _) (Steady-other_forms s rows))

    module _ (s : WireStack) (env : Env) (v : Machine H) (desired : IsDesired s v.daemon)
        (busy : InFlight host s v.daemon v.host) where
      blocked_lem :
          (argv : List String) (o : Option Message)
          → o ≢ none
          → IsUndisturbed v (unless_blocked host s env argv o v).1
      unfolding pure
      blocked_lem argv none h = absurd (h refl)
      blocked_lem argv (some why) h = undisturbed.same v

      due_lem : (argv : List String) → IsUndisturbed v (due host s env argv true v).1
      unfolding ◌>>=◌ observe
      due_lem argv = blocked_lem argv (inflight_blocker host (some (s.name ∷ [])) v.daemon v.host) (
          inflight_blocker_lem host (some (s.name ∷ [])) s v.daemon v.host desired busy
            (rw (==_refl s.name)))

      imaged_lem : (argv : List String) → IsUndisturbed v (imaged host s env argv true v).1
      unfolding ◌>>=◌ observe
      imaged_lem argv =
          elim (Bool-cases (needs_restart host s.name s.command env v.daemon v.host)) [
            | inl e ↦ rw e (due_lem argv)
            | inr e ↦ rw e ((Steady-sole_form s).at v)
          ]

      env_lem :
          get_or_empty "THEOZOLITH_RUN_IMAGE" env ≢ ""
          → (r : Result Fault (List String))
          → IsUndisturbed v (continue r (with_argv host s env) v).1
      unfolding ◌>>=◌ observe
      env_lem h (ok argv) =
          rw (busy.lives, ==_false_of_ne (get_or_empty "THEOZOLITH_RUN_IMAGE" env) "" h)
            (rw (and_false (invokes_driver argv)) (imaged_lem argv))
      env_lem h (err e) = undisturbed.same v

    -- A Run is not interrupted by a change of its Stack, as long as the Stack is to run: while a
    -- desired process Stack has one in flight under a live child, converging the Stack as one that is
    -- wanted running starts, stops and forgets no child, whatever changed in its command or its
    -- environment, and leaves what is seen of the host as it was. Reading the environment succeeded
    -- and gave a run image. What is seen of the host is any view of it that the reading of the applied
    -- distribution, the listing and removal of Stack containers, compose and the replacing of state
    -- files leave as it was.
    pub converge_process-IsUndisturbed :
        (s : WireStack) (env : Env) (w v : Machine H)
        → process_env host s w ≡ (ok env, v)
        → get_or_empty "THEOZOLITH_RUN_IMAGE" env ≢ ""
        → IsDesired s v.daemon
        → InFlight host s v.daemon v.host
        → IsUndisturbed w (converge_process host s true w).1
    unfolding converge_process ◌>>=◌ lift
    converge_process-IsUndisturbed s env w v read imaged desired busy =
        undisturbed.along w v _
          (subst (λ (p : Result Fault Env × Machine H). IsUndisturbed w p.1) read
            ((Steady-process_env s).at w))
          (rw read (env_lem s env v desired busy imaged (argv_of host s)))
