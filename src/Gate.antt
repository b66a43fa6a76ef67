-- ===== src/Gate.antt =====
-- scripts/promotion_gate.py: the gate in front of every promotion to ATP.
pub mod Evidence
pub mod Log
pub mod Paths
pub mod Report
pub mod SameCode
pub mod Check
pub mod Override
mod Tests
