-- ===== src/Promote.antt =====
-- scripts/ci_promote.py: the stages of the promotion, as state passing with `sys.exit`. What the script
-- calls (git, SQLcl, the harness, the console test, gh) answers by the history of what was done before.
pub mod State
pub mod Stages
pub mod Merge
pub mod Keeps
pub mod Order
pub mod Permitted
pub mod Recorded
pub mod Seeds
mod Tests
