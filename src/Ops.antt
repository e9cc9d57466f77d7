-- ===== src/Ops.antt =====
-- safety/ops.py: bring every enabled city up to date, with evidence for each step and patience
-- after a failure.
mod Tests
pub mod Plan
pub mod Converge
pub mod Ledger
