-- ===== src/Daemon/Contained.antt =====
-- daemon.py: a reconcile pass contains every failure below it.
use the_ozolith.Common.{String, List, [], ◌∷◌, nat_eq, string_eq, pair_eq, triple_eq, list_eq}
use the_ozolith.Common.Message.{Message}
use the_ozolith.Common.Exec.{Result, ok, err, continue, ◌>>=◌}
use the_ozolith.Common.Returns.{
  IsOk, Returns, Returns-pure, Returns-catch, Returns-bind, returns_rules,
}
use the_ozolith.Daemon.{Fault, Daemon, Event, Host, Machine}
use the_ozolith.Daemon.Base.{Act, ask, look, each, emit_event}
use the_ozolith.Daemon.Spec.{current_drivers_hash}
use the_ozolith.Daemon.Reconcile.{contained, settle, reconcile}

module _ {H : Type 0} (host : Host H) where
  Returns-look : {A : Type 0} (f : Daemon → A) → Returns (look {H = H} f)
  unfolding look
  Returns-look f = record { at = λ w. tt }

  Returns-ask : {A : Type 0} (m : H → A × H) → Returns (ask m)
  unfolding ask
  Returns-ask m = record { at = λ w. tt }

  Returns-emit_event : (e : Event) → Returns (emit_event host e)
  unfolding emit_event
  Returns-emit_event e = search returns_rules

  Returns-contained : (what : Message) (m : Act H (Unit {0})) → Returns (contained host what m)
  unfolding contained
  Returns-contained what m = Returns-catch m _ (λ e. Returns-emit_event _)

  Returns-each :
      {A : Type 0} (body : A → Act H (Unit {0})) (xs : List A)
      → ((x : A) → Returns (body x))
      → Returns (each body xs)
  unfolding each
  Returns-each body [] k = Returns-pure tt
  Returns-each body (x ∷ xs) k = Returns-bind _ _ (k x) (λ _. Returns-each body xs k)

  Returns-settle : (applied : String) → Returns (settle host applied)
  unfolding settle
  Returns-settle applied =
      search (returns_rules, Returns-look, Returns-ask, Returns-contained, Returns-each) depth 24

  continue_lem :
      (r : Result Fault String) (u : Machine H) → IsOk r → IsOk (continue r (settle host) u).0
  continue_lem (ok hash) u h = (Returns-settle hash).at u
  continue_lem (err e) u h = absurd h

  -- Failures are contained: once the applied distribution is known, a reconcile pass returns,
  -- whatever Docker, the processes, the files and the Control Node do.
  pub reconcile-IsOk :
      (w : Machine H) → IsOk (current_drivers_hash host w).0 → IsOk (reconcile host w).0
  unfolding reconcile ◌>>=◌
  reconcile-IsOk w h =
      continue_lem (current_drivers_hash host w).0 (current_drivers_hash host w).1 h
