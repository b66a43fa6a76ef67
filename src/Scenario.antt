-- ===== src/Scenario.antt =====
-- scripts/deploy_scenario.py: minting a write-once scenario. Here is the state file
-- scripts/regression_scenario.json with the functions that change it; a dict that is missing from the
-- file is an empty one. Mint is the command itself, Name the names that it gives.
pub mod Dict
pub mod Name
pub mod Registry
pub mod Mint
pub mod Steps
pub mod Order
pub mod Lifecycle
pub mod Verified
pub mod Pointer
pub mod Moved
pub mod Resume
mod Tests
