-- ===== src/Daemon/Staged.antt =====
-- daemon.py: a config distribution is verified beside the applied one before any driver is stopped.
use the_ozolith.Common.{
  String, ◌≡◌, refl, ◌∙◌, ◌⊎◌, inl, inr, Bool, true, false, not, ◌&&◌, ◌||◌, Option, none, some,
  if◌then◌else◌, Bool-cases, ◌==◌, nat_eq, string_eq, pair_eq, triple_eq, list_eq, ==_true,
}
use the_ozolith.Common.Message.{Message}
use the_ozolith.Common.Exec.{Result, ok, err, pure, raise, continue, ◌>>=◌, recover, catch}
use the_ozolith.Common.Returns.{IsOk}
use the_ozolith.Daemon.{Fault, Host, Machine}
use the_ozolith.Daemon.Base.{call, ask, look, observe, change, report}
use the_ozolith.Daemon.Runs.{inflight_blocker}
use the_ozolith.Daemon.Kept.{Steady-report}
use the_ozolith.Daemon.Kept.Spec.{Steady-current_drivers_hash}
use the_ozolith.Daemon.Spec.{current_drivers_hash}
use the_ozolith.Daemon.Preflight.{same_children, facts}
use the_ozolith.Daemon.Drivers.{
  apply_config_dist, retire_config_dist, drivers_unless, drivers_failed, drivers_due,
  converge_drivers,
}

module _ {H : Type 0} (host : Host H) where
  abbrev Untouched : Machine H → Machine H → Type 0
  Untouched w u = w.daemon.children ≡ u.daemon.children

  -- nothing is desired, or what is desired was staged
  abbrev pub IsStaged : String → H → Type 0
  IsStaged desired h = (desired ≡ "") ⊎ IsOk (host.stage_distribution desired h).0

  failed_lem :
      (desired previous : String) (v : Machine H) (e : Fault) (h : H)
      → host.stage_distribution desired v.host ≡ (err e, h)
      → Untouched v (apply_config_dist host desired previous v).1
  unfolding apply_config_dist ◌>>=◌ catch call ask raise
  failed_lem desired previous v e h read = rw read refl

  apply_lem :
      (desired previous : String) (v : Machine H)
      → Untouched v (apply_config_dist host desired previous v).1
        ⊎ IsOk (host.stage_distribution desired v.host).0
  apply_lem desired previous v = staged_lem _ _ refl
    where
      staged_lem :
          (r : Result Fault (Unit {0})) (h : H)
          → host.stage_distribution desired v.host ≡ (r, h)
          → Untouched v (apply_config_dist host desired previous v).1
            ⊎ IsOk (host.stage_distribution desired v.host).0
      staged_lem (ok _) h read = inr (rw read tt)
      staged_lem (err e) h read = inl (failed_lem desired previous v e h read)

  caught_lem :
      (w : Machine H) (r : Result Fault (Unit {0})) (u : Machine H)
      → Untouched w u
      → Untouched w (recover r (report host (drivers_failed host)) u).1
  caught_lem w (ok _) u same = same
  caught_lem w (err e) u same =
      same ∙ (Steady-report (same_children host) (facts host) host (drivers_failed host) e).at u

  module _ (desired current : String) (v : Machine H) where
    abbrev Ready : Type 0
    Ready = (inflight_blocker host none v.daemon v.host ≡ none) × IsStaged desired v.host

    attempted : Machine H
    attempted = record v {
      daemon = record v.daemon { drivers_blocker = none; drivers_attempted = true };
    }

    converge_lem :
        (b : Bool)
        → (desired == "") ≡ b
        → Untouched v
            (catch
              (if b then retire_config_dist host else apply_config_dist host desired current)
              (report host (drivers_failed host))
              attempted).1
          ⊎ IsStaged desired v.host
    unfolding catch attempted
    converge_lem true e = inr (inl (==_true desired "" e))
    converge_lem false e =
        let t = apply_config_dist host desired current attempted in
        elim (apply_lem desired current attempted) [
          | inl same ↦ inl (caught_lem v t.0 t.1 same)
          | inr good ↦ inr (inr good)
        ]

    unless_lem :
        (o : Option Message)
        → inflight_blocker host none v.daemon v.host ≡ o
        → Untouched v (drivers_unless host desired current o v).1 ⊎ Ready
    unfolding ◌>>=◌ change pure attempted
    unless_lem (some why) e = inl refl
    unless_lem none e = elim (Bool-cases (not (desired == "") && not host.has_client)) [
      | inl no_client ↦ rw no_client (inl refl)
      | inr able ↦ rw able (elim (converge_lem (desired == "") refl) [
        | inl same ↦ inl same
        | inr staged ↦ inr (e, staged)
      ])
    ]

    due_lem : Untouched v (drivers_due host desired current v).1 ⊎ Ready
    unfolding ◌>>=◌ change observe
    due_lem = elim (Bool-cases (desired == current)) [
      | inl e ↦ rw e (inl refl)
      | inr e ↦ rw e (unless_lem _ refl)
    ]

  -- Nothing is stopped for a config distribution that cannot be used: converging onto the desired
  -- one leaves every child as it was, unless no Run was in flight once the applied one was known,
  -- and the desired one was fetched, unpacked and verified, or none is desired.
  pub converge_drivers-IsStaged :
      (w : Machine H)
      → (w.daemon.children ≡ (converge_drivers host w).1.daemon.children)
        ⊎ ((inflight_blocker host none
                (current_drivers_hash host w).1.daemon
                (current_drivers_hash host w).1.host
              ≡ none)
            × IsStaged w.daemon.desired.drivers_hash (current_drivers_hash host w).1.host)
  unfolding converge_drivers ◌>>=◌ look pure
  converge_drivers-IsStaged w =
      elim (Bool-cases (w.daemon.update_done || w.daemon.drivers_attempted)) [
        | inl e ↦ rw e (inl refl)
        | inr e ↦ rw e (
            hash_lem _ _
              ((Steady-current_drivers_hash (same_children host) (facts host) host).at w))
      ]
    where
      hash_lem :
          (r : Result Fault String) (v : Machine H)
          → Untouched w v
          → Untouched w (continue r (drivers_due host w.daemon.desired.drivers_hash) v).1
            ⊎ ((inflight_blocker host none v.daemon v.host ≡ none)
                × IsStaged w.daemon.desired.drivers_hash v.host)
      hash_lem (err e) v same = inl same
      hash_lem (ok current) v same = elim (due_lem w.daemon.desired.drivers_hash current v) [
        | inl kept ↦ inl (same ∙ kept)
        | inr ready ↦ inr ready
      ]
