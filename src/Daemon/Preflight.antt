-- ===== src/Daemon/Preflight.antt =====
-- daemon.py: an update stops the tree only for an install that can start.
use the_ozolith.Common.{
  String, ◌≡◌, refl, ◌∙◌, ◌≢◌, ◌⊎◌, inl, inr, Bool, true, false, ◌||◌, Option, none, some, List, [],
  ◌∷◌, arith, Bool-cases, ◌==◌, nat_eq, string_eq, pair_eq, triple_eq, list_eq, ==_refl,
}
use the_ozolith.Common.Message.{Message}
use the_ozolith.Common.Exec.{Result, ok, err, pure, raise, continue, ◌>>=◌, recover, catch}
use the_ozolith.Common.Keeps.{Preorder}
use the_ozolith.Daemon.{Fault, Host, Machine}
use the_ozolith.Daemon.Base.{call, ask, look, observe, change, on_disk, report}
use the_ozolith.Daemon.Runs.{inflight_blocker}
use the_ozolith.Daemon.Kept.{Ground, Steady-report}
use the_ozolith.Daemon.Commands.{
  when_writable, with_targets, install_product, update_unless, update_failed, blocker_unless,
  pinned, converge_product,
}

-- there is something to install, and the environment can be written
pub record CanStart {H : Type 0} (host : Host H) (pin : String) (h : H) : Type 0 where
  pub first : String
  pub others : List String
  pub reached : H
  pub after : H
  pub targets : host.update_targets pin h ≡ (ok (first ∷ others), reached)
  pub writable : host.venv_writable reached ≡ (ok none, after)

module _ {H : Type 0} (host : Host H) where
  abbrev pub Untouched : Machine H → Machine H → Type 0
  Untouched w u = w.daemon.children ≡ u.daemon.children

  abbrev pub same_children : Preorder (Machine H)
  same_children = record { Rel = Untouched; same = λ w. refl; along = λ w u v h k. h ∙ k }

  pub facts : Ground same_children
  unfolding call ask change on_disk
  facts = record {
    calls = λ A m. record { at = λ w. refl };
    asks = λ A m. record { at = λ w. refl };
    others = λ f k. record { at = λ w. (k w.daemon).children };
    files = λ f k. record { at = λ w. refl };
  }

  module _ (pin : String) (w : Machine H) where
    abbrev Outcome : Machine H → Type 0
    Outcome u = Untouched w u ⊎ CanStart host pin w.host

    writable_lem :
        (t : String) (ts : List String) (r : Result Fault (Option Message)) (h h' : H)
        → host.update_targets pin w.host ≡ (ok (t ∷ ts), h)
        → host.venv_writable h ≡ (r, h')
        → Outcome (continue r (when_writable host (t ∷ ts)) (record w { host = h' })).1
    unfolding raise
    writable_lem t ts (err e) h h' read wrote = inl refl
    writable_lem t ts (ok (some why)) h h' read wrote = inl refl
    writable_lem t ts (ok none) h h' read wrote = inr (record {
      first = t;
      others = ts;
      reached = h;
      after = h';
      targets = read;
      writable = wrote;
    })

    targets_lem :
        (r : Result Fault (List String)) (h : H)
        → host.update_targets pin w.host ≡ (r, h)
        → Outcome (continue r (with_targets host) (record w { host = h })).1
    unfolding raise ◌>>=◌ call
    targets_lem (err e) h read = inl refl
    targets_lem (ok []) h read = inl refl
    targets_lem (ok (t ∷ ts)) h read = writable_lem t ts _ h _ read refl

    install_lem : Outcome (install_product host pin w).1
    unfolding install_product ◌>>=◌ call
    install_lem = targets_lem _ _ refl

    caught_lem :
        (what : Message) (r : Result Fault (Unit {0})) (u : Machine H)
        → Outcome u
        → Outcome (recover r (report host what) u).1
    caught_lem what (ok _) u o = o
    caught_lem what (err e) u (inl same) =
        inl (same ∙ (Steady-report same_children facts host what e).at u)
    caught_lem what (err e) u (inr can) = inr can

  module _ (force : Bool) (w : Machine H) where
    abbrev Ready : String → Type 0
    Ready pin =
        CanStart host pin w.host
        × (pin ≢ host.config.version)
        × (force ≡ false → inflight_blocker host none w.daemon w.host ≡ none)

    free_lem :
        blocker_unless host force w.daemon w.host ≡ none
        → force ≡ false
        → inflight_blocker host none w.daemon w.host ≡ none
    free_lem e f = rw f at e

    attempt_lem :
        (pin : String) (o : Option Message)
        → blocker_unless host force w.daemon w.host ≡ o
        → (pin ≢ host.config.version)
        → Untouched w (update_unless host pin o w).1 ⊎ Ready pin
    unfolding change ◌>>=◌ catch
    attempt_lem pin (some why) e other = inl refl
    attempt_lem pin none e other =
        let v : Machine H = record w {
          daemon = record w.daemon { update_blocker = none; product_attempted = true };
        } in
        let t = install_product host pin v in
        elim (caught_lem pin v (update_failed pin) t.0 t.1 (install_lem pin v)) [
          | inl same ↦ inl same
          | inr can ↦ inr (can, other, free_lem e)
        ]

    pinned_lem : (pin : String) → Untouched w (pinned host force pin w).1 ⊎ Ready pin
    unfolding change ◌>>=◌ observe
    pinned_lem pin = elim (Bool-cases (pin == "" || pin == host.config.version)) [
      | inl e ↦ rw e (inl refl)
      | inr e ↦ rw e (attempt_lem pin _ refl (λ same. ground (arith, e, ==_refl pin, same)))
    ]

  -- An update stops no child unless it has something to install and can write its environment, the
  -- pin differs from the running version, and, if it is not forced, no Run is in flight.
  pub converge_product-CanStart :
      (force : Bool) (w : Machine H)
      → (w.daemon.children ≡ (converge_product host force w).1.daemon.children)
        ⊎ (CanStart host w.daemon.desired.product_version w.host
            × (w.daemon.desired.product_version ≢ host.config.version)
            × (force ≡ false → inflight_blocker host none w.daemon w.host ≡ none))
  unfolding converge_product ◌>>=◌ look pure
  converge_product-CanStart force w =
      elim (Bool-cases (w.daemon.update_done || w.daemon.product_attempted)) [
        | inl e ↦ rw e (inl refl)
        | inr e ↦ rw e (pinned_lem force w w.daemon.desired.product_version)
      ]
