-- ===== src/Daemon/Pass.antt =====
-- daemon.py: one pass of the daemon.
use the_ozolith.Common.{false, none, nat_eq, string_eq, pair_eq, triple_eq, list_eq}
use the_ozolith.Common.Exec.{◌>>=◌, ◌>>◌}
use the_ozolith.Daemon.{Daemon, Host}
use the_ozolith.Daemon.Base.{Act, call, change}
use the_ozolith.Daemon.Reconcile.{reconcile}
use the_ozolith.Daemon.Beat.{exchange_heartbeat}
use the_ozolith.Daemon.Commands.{execute_all, converge_product}
use the_ozolith.Daemon.Drivers.{converge_drivers}

module _ {H : Type 0} (host : Host H) where
  -- the latches of the pass before are reset, and the applied distribution is verified again
  abbrev pub fresh_pass : Daemon → Daemon
  fresh_pass d = record d {
    product_attempted = false;
    drivers_attempted = false;
    verified_drivers_hash = none;
  }

  -- `once`
  unfoldable pub once : Act H (Unit {0})
  unfolding exchange_heartbeat execute_all converge_drivers reconcile
  once = do
    change fresh_pass
    commands ← exchange_heartbeat host
    execute_all host commands
    converge_product host false
    converge_drivers host
    call host.export_knowledge
    call host.export_policy
    call host.converge_cli
    reconcile host
