-- ===== src/Regression.antt =====
-- scripts/dmt_regression_run.py: how a run of the regression is judged.
pub mod Rows
pub mod Baseline
pub mod Waiting
pub mod Expect
pub mod Messages
pub mod Sweep
pub mod Rest
pub mod Evaluate
pub mod Issue
pub mod Known
pub mod Harness
