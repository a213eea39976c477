-- ===== src/Dispatch.antt =====
-- control/src/theozolith_control/dispatch.py: claim dispatch, the single writer of claim creation.
-- The lock makes each call one step; what is logged is not modelled.
pub mod Gates
pub mod Reads
pub mod Grant
pub mod Review
pub mod Kept
mod Tests
pub mod Eligible
pub mod Pause
pub mod Stopped
pub mod Sibling
