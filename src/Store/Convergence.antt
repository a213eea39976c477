-- ===== src/Store/Convergence.antt =====
-- store.py: the pin-convergence ladder over version_health and drivers_health.
pub mod Lever
pub mod Patience
use the_ozolith.Common.{
  ℕ, ◌+◌, ◌*◌, String, Bool, true, false, not, ◌&&◌, ◌||◌, Option, none, some, leb, if◌then◌else◌,
  is_some, any, ◌==◌, nat_eq, string_eq, pair_eq, triple_eq, is_value,
}
use the_ozolith.Common.Table.{Table, find, put, delete}
use the_ozolith.Store.{Store, CommandRow, HealthRow}
use the_ozolith.Store.Commands.{is_pending, queue_command}

-- the two health tables
pub data Ladder : Type 0 where
  version_health drivers_health : Ladder

-- what an observation did
pub data Rung : Type 0 where
  restart_queued escalated : Rung

unfoldable pub health : Ladder → Store → Table String HealthRow
health version_health s = s.version_health
health drivers_health s = s.drivers_health

unfoldable pub with_health : Ladder → Table String HealthRow → Store → Store
with_health version_health t s = record s { version_health = t }
with_health drivers_health t s = record s { drivers_health = t }

abbrev pub row_or_new : Option HealthRow → HealthRow
row_or_new none = record { offpin_beats = 0; restart_queued = false; escalated = false }
row_or_new (some row) = row

-- not desired or reported is None or reported == desired or deferred
abbrev pub is_settled : Option String → String → Bool → Bool
is_settled reported desired deferred =
    desired == "" || not (is_some reported) || is_value reported desired || deferred

abbrev pub is_pending_restart : String → CommandRow → Bool
is_pending_restart node c = is_pending node c && c.verb == "restart"

-- the one restart lever, shared by both ladders and the operator
unfoldable pub queue_restart : String → ℕ → Store → Store
queue_restart node now s =
    if any (is_pending_restart node) s.commands
    then s
    else (queue_command node "restart" none false now s).1

-- the rungs, once the beat is counted
unfoldable pub climb : Ladder → String → ℕ → ℕ → HealthRow → Store → Option Rung × Store
unfolding with_health health queue_restart
climb ladder node threshold now row s =
    if not row.restart_queued && leb threshold row.offpin_beats
    then (
      some restart_queued,
      with_health ladder (put node (record row { restart_queued = true }) (health ladder s))
          (queue_restart node now s),
    )
    else if row.restart_queued && not row.escalated && leb (2 * threshold) row.offpin_beats
    then (
      some escalated,
      with_health ladder (put node (record row { escalated = true }) (health ladder s)) s,
    )
    else (none, s)

unfoldable pub observe_convergence :
    Ladder → String → Option String → String → ℕ → Bool → ℕ → Store → Option Rung × Store
unfolding climb
observe_convergence ladder node reported desired threshold deferred now s =
    if is_settled reported desired deferred
    then (none, with_health ladder (delete node (health ladder s)) s)
    else counted
  where
    old : HealthRow
    old = row_or_new (find node (health ladder s))

    row : HealthRow
    row = record old { offpin_beats = old.offpin_beats + 1 }

    counted : Option Rung × Store
    counted =
        climb ladder node threshold now row (with_health ladder (put node row (health ladder s)) s)

abbrev report_of : String → Option String
report_of reported = if reported == "" then none else some reported

-- an empty version is no report
unfoldable pub observe_version :
    String → String → String → ℕ → Bool → ℕ → Store → Option Rung × Store
unfolding observe_convergence
observe_version node reported pin threshold deferred now s =
    observe_convergence version_health node (report_of reported) pin threshold deferred now s

-- an empty hash is a report
unfoldable pub observe_drivers :
    String → Option String → String → ℕ → Bool → ℕ → Store → Option Rung × Store
unfolding observe_convergence
observe_drivers node reported desired threshold deferred now s =
    observe_convergence drivers_health node reported desired threshold deferred now s
