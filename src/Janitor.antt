-- ===== src/Janitor.antt =====
-- control/src/theozolith_control/janitor.py: the zombie-claim janitor and the release of grants that
-- were never activated. What is logged is not modelled.
pub mod Sweep
pub mod Release
pub mod Drift
pub mod Drifted
pub mod Evidence
mod Tests
pub mod Unwound
pub mod Once
