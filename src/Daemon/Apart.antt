-- ===== src/Daemon/Apart.antt =====
-- daemon.py: the convergence of one Stack leaves the others alone.
use the_ozolith.Common.{
  String, ◌≡◌, refl, sym, ap, ◌∙◌, ◌≢◌, Bool, Option, none, some, List, [], ◌∷◌, nat_eq, string_eq,
  pair_eq, triple_eq, list_eq, ==_false_of_ne,
}
use the_ozolith.Common.Table.{
  Table, find, put, delete, update, find-update, find-put_ne, find-delete_ne,
}
use the_ozolith.Common.Keeps.{Preorder}
use the_ozolith.Common.Steady.{Steady, Steady-bind, Steady-pure, Steady-raise, Steady-catch}
use the_ozolith.Daemon.{Fault, WireStack, AppliedCompose, Daemon, Host, Machine}
use the_ozolith.Daemon.Base.{call, ask, change, on_disk, atomic_json}
use the_ozolith.Daemon.Compose.{
  with_records, rolled_back, persist_applied_compose, roll_back, write_ahead_files,
  write_ahead_compose, down, compose_down,
}
use the_ozolith.Daemon.Kept.{Ground, Leaves, Steady-look, Steady-call}
use the_ozolith.Daemon.Kept.Reconcile.{Steady-converge}
use the_ozolith.Daemon.Reconcile.{converge}

-- what the daemon holds under a Stack's name
pub record SameStack (name : String) (d e : Daemon) : Type 0 where
  pub child : find name d.children ≡ find name e.children
  pub jobs_dir : find name d.applied_jobs_dir ≡ find name e.applied_jobs_dir
  pub project : find name d.applied_compose ≡ find name e.applied_compose

module _ {H : Type 0} (name : String) where
  abbrev same_stack : Preorder (Machine H)
  same_stack = record {
    Rel = λ w u. SameStack name w.daemon u.daemon;
    same = λ w. record { child = refl; jobs_dir = refl; project = refl };
    along = λ w u v h k. record {
      child = h.child ∙ k.child;
      jobs_dir = h.jobs_dir ∙ k.jobs_dir;
      project = h.project ∙ k.project;
    };
  }

  Steady-change :
      (f : Daemon → Daemon) → ((d : Daemon) → SameStack name d (f d)) → Steady same_stack (change f)
  unfolding change
  Steady-change f k = record { at = λ w. k w.daemon }

  facts : Ground same_stack
  unfolding call ask on_disk
  facts = record {
    calls = λ A m. record { at = λ w. same_stack.same w };
    asks = λ A m. record { at = λ w. same_stack.same w };
    others = λ f k. Steady-change f (λ d. record {
      child = ap (find name) (k d).children;
      jobs_dir = ap (find name) (k d).jobs_dirs;
      project = ap (find name) (k d).projects;
    });
    files = λ f k. record { at = λ w. same_stack.same w };
  }

  module _ (host : Host H) (k : String) (other : k ≢ name) where
    children_lem :
        (f : Daemon → Daemon)
        → ((d : Daemon) → find name d.children ≡ find name (f d).children)
        → ((d : Daemon) → d.applied_jobs_dir ≡ (f d).applied_jobs_dir)
        → ((d : Daemon) → d.applied_compose ≡ (f d).applied_compose)
        → Steady same_stack (change f)
    children_lem f c j p = Steady-change f (λ d. record {
      child = c d;
      jobs_dir = ap (find name) (j d);
      project = ap (find name) (p d);
    })

    records_lem :
        (f : Daemon → Table String AppliedCompose)
        → ((d : Daemon) → find name d.applied_compose ≡ find name (f d))
        → Steady same_stack (change (λ d. with_records (f d) d))
    records_lem f p = Steady-change _ (λ d. record { child = refl; jobs_dir = refl; project = p d })

    dirs_lem :
        (f : Daemon → Table String String)
        → ((d : Daemon) → find name d.applied_jobs_dir ≡ find name (f d))
        → Steady same_stack (change (λ d. record d { applied_jobs_dir = f d }))
    dirs_lem f p = Steady-change _ (λ d. record { child = refl; jobs_dir = p d; project = refl })

    put_lem : {V : Type 0} (v : V) (t : Table String V) → find name t ≡ find name (put k v t)
    put_lem v t = sym (find-put_ne k name v t other)

    delete_lem : {V : Type 0} (t : Table String V) → find name t ≡ find name (delete k t)
    delete_lem t = sym (find-delete_ne k name t other)

    update_lem :
        (f : AppliedCompose → AppliedCompose) (t : Table String AppliedCompose)
        → find name t ≡ find name (update k f t)
    update_lem f t = rw (find-update k name f t) (rw (==_false_of_ne k name other))

    rolled_back_lem :
        (o : Option AppliedCompose) (t : Table String AppliedCompose)
        → find name t ≡ find name (rolled_back k o t)
    rolled_back_lem none t = delete_lem t
    rolled_back_lem (some r) t = put_lem r t

    Steady-persist : Steady same_stack (persist_applied_compose host)
    unfolding persist_applied_compose atomic_json on_disk
    Steady-persist =
        Steady-bind _ _ (Steady-call same_stack facts host _)
          (λ _. record { at = λ w. same_stack.same w })

    Steady-roll_back :
        (o : Option AppliedCompose) (e : Fault) → Steady same_stack (roll_back host k o e)
    Steady-roll_back o e =
        Steady-bind _ _ (records_lem _ (λ d. rolled_back_lem o d.applied_compose))
          (λ _. Steady-raise e)

    Steady-ahead_files :
        (r : AppliedCompose) (files : List String)
        → Steady same_stack (write_ahead_files host k r files)
    Steady-ahead_files r [] = Steady-raise _
    Steady-ahead_files r (file ∷ files) = Steady-bind _ _ (Steady-look same_stack _) (λ prior.
        Steady-bind _ _ (records_lem _ (λ d. put_lem r d.applied_compose))
          (λ _. Steady-catch _ _ Steady-persist (Steady-roll_back prior)))

    Steady-ahead : (r : AppliedCompose) → Steady same_stack (write_ahead_compose host k r)
    unfolding write_ahead_compose
    Steady-ahead r = Steady-ahead_files r r.files

    Steady-down_of : (o : Option AppliedCompose) → Steady same_stack (down host k o)
    Steady-down_of none = Steady-pure tt
    Steady-down_of (some r) = Steady-bind _ _ (Steady-call same_stack facts host _) (λ _.
        Steady-bind _ _ (records_lem _ (λ d. delete_lem d.applied_compose)) (λ _. Steady-persist))

    Steady-down : Steady same_stack (compose_down host k)
    unfolding compose_down
    Steady-down = Steady-bind _ _ (Steady-look same_stack _) Steady-down_of

    leaves : Leaves same_stack facts host k
    leaves = record {
      forget = children_lem _ (λ d. delete_lem d.children) (λ d. refl) (λ d. refl);
      noted = λ code. children_lem _ (λ d. refl) (λ d. refl) (λ d. refl);
      displaced = λ code. children_lem _ (λ d. delete_lem d.children) (λ d. refl) (λ d. refl);
      born = λ c f p. children_lem _ (λ d. put_lem _ d.children) (λ d. refl) (λ d. refl);
      forget_dir = dirs_lem _ (λ d. delete_lem d.applied_jobs_dir);
      note_dir = λ dir. dirs_lem _ (λ d. put_lem dir d.applied_jobs_dir);
      ahead = Steady-ahead;
      down = Steady-down;
      promote = λ f same. records_lem _ (λ d. update_lem f d.applied_compose);
      persist = Steady-persist;
    }

module _ {H : Type 0} (host : Host H) where
  -- Stacks are converged apart: whatever the convergence of one Stack does, and wherever it fails,
  -- the daemon holds under any other name the child, the jobs directory and the compose record that
  -- it held before.
  pub converge-SameStack :
      (s : WireStack) (want : Bool) (name : String) (w : Machine H)
      → s.name ≢ name
      → SameStack name w.daemon (converge host s want w).1.daemon
  converge-SameStack s want name w other =
      (Steady-converge (same_stack name) (facts name) host s (leaves name host s.name other)
          want).at
        w
