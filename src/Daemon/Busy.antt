-- ===== src/Daemon/Busy.antt =====
-- daemon.py: a Run in flight is not interrupted by a change of its Stack, nor by a queued command.
use the_ozolith.Common.{
  ℕ, String, ◌≡◌, refl, sym, subst, ◌≢◌, inl, inr, true, false, Option, none, some, List, [], ◌∷◌,
  ◌++◌, Option-cases, ◌==◌, nat_eq, string_eq, pair_eq, triple_eq, list_eq,
}
use the_ozolith.Common.Table.{put}
use the_ozolith.Common.Message.{Message}
use the_ozolith.Common.Exec.{ok, pure, ◌>>=◌}
use the_ozolith.Daemon.{WireStack, Daemon, Command, Host, Machine}
use the_ozolith.Daemon.Base.{observe, change}
use the_ozolith.Daemon.Supervisor.{alive}
use the_ozolith.Daemon.Runs.{
  is_left_out, behind, first_some, live_jobs_dir, active_runs, stack_blocker, first_blocker,
  inflight_blocker,
}
use the_ozolith.Daemon.Commands.{waits, scope_of, blocker_of, execute, execute_all}

-- a live child of a desired process Stack whose jobs directory holds a Run
pub record InFlight {H : Type 0} (host : Host H) (s : WireStack) (d : Daemon) (h : H) : Type 0 where
  pub is_process : (s.kind == "process") ≡ true
  pub lives : alive host s.name d h ≡ true
  pub run : active_runs host (live_jobs_dir s d) h ≢ []

-- the Stack is among the desired ones
pub record IsDesired (s : WireStack) (d : Daemon) : Type 0 where
  pub before : List WireStack
  pub after : List WireStack
  pub listed : d.desired.stacks ≡ before ++ s ∷ after

first_some_left : (o p : Option Message) → o ≢ none → first_some o p ≢ none
first_some_left none p h = absurd (h refl)
first_some_left (some m) p h = λ e. absurd (cc e)

first_some_right : (o p : Option Message) → p ≢ none → first_some o p ≢ none
first_some_right none p h = h
first_some_right (some m) p h = λ e. absurd (cc e)

module _ {H : Type 0} (host : Host H) where
  behind_lem : (runs : List String) (name : String) → runs ≢ [] → behind runs name ≢ none
  behind_lem [] name h = absurd (h refl)
  behind_lem (run ∷ runs) name h = λ e. absurd (cc e)

  stack_blocker_lem :
      (names : Option (List String)) (s : WireStack) (d : Daemon) (h : H)
      → InFlight host s d h
      → is_left_out names s.name ≡ false
      → stack_blocker host names s d h ≢ none
  stack_blocker_lem names s d h busy scope =
      rw (scope, busy.is_process, busy.lives) (behind_lem _ s.name busy.run)

  -- a Run of one Stack in scope is a blocker, whatever Stacks stand before it
  first_blocker_lem :
      (names : Option (List String)) (before after : List WireStack) (s : WireStack) (d : Daemon)
      (h : H)
      → InFlight host s d h
      → is_left_out names s.name ≡ false
      → first_blocker host names (before ++ s ∷ after) d h ≢ none
  unfolding first_blocker
  first_blocker_lem names [] after s d h busy scope =
      first_some_left _ _ (stack_blocker_lem names s d h busy scope)
  first_blocker_lem names (t ∷ before) after s d h busy scope =
      first_some_right _ _ (first_blocker_lem names before after s d h busy scope)

  pub inflight_blocker_lem :
      (names : Option (List String)) (s : WireStack) (d : Daemon) (h : H)
      → IsDesired s d
      → InFlight host s d h
      → is_left_out names s.name ≡ false
      → inflight_blocker host names d h ≢ none
  inflight_blocker_lem names s d h desired busy scope =
      subst (λ (l : List WireStack). first_blocker host names l d h ≢ none) (sym desired.listed)
        (first_blocker_lem names desired.before desired.after s d h busy scope)

  -- what a deferral leaves: its reason, under the command's id
  abbrev pub deferred : ℕ → Message → Machine H → Machine H
  deferred i why w = record w {
    daemon = record w.daemon { deferrals = put i why w.daemon.deferrals };
  }

  execute_lem :
      (c : Command) (i : ℕ) (why : Message) (w : Machine H)
      → c.id ≡ some i
      → blocker_of host c w.daemon w.host ≡ some why
      → execute host c w ≡ (ok false, deferred i why w)
  unfolding execute ◌>>=◌ observe change pure
  execute_lem c i why w named e = rw (e, named)

  -- Queue-behind: while a desired process Stack in the command's scope has a Run in flight, a
  -- recycle, update or restart that is not forced, and everything queued after it, does nothing in
  -- this pass but to note a reason for the heartbeat: no child is stopped, nothing is called and
  -- nothing is acked.
  pub execute_all-held :
      (c : Command) (cs : List Command) (i : ℕ) (s : WireStack) (w : Machine H)
      → c.id ≡ some i
      → waits c ≡ true
      → IsDesired s w.daemon
      → InFlight host s w.daemon w.host
      → is_left_out (scope_of c) s.name ≡ false
      → (why : Message) × (execute_all host (c ∷ cs) w ≡ (ok tt, deferred i why w))
  unfolding execute_all ◌>>=◌ pure
  execute_all-held c cs i s w named waiting desired busy scope =
      elim (Option-cases (inflight_blocker host (scope_of c) w.daemon w.host)) [
        | inl e ↦ absurd (inflight_blocker_lem (scope_of c) s w.daemon w.host desired busy scope e)
        | inr (why, e) ↦ (why, rw (execute_lem c i why w named (rw waiting e)))
      ]
