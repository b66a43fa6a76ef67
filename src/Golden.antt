-- ===== src/Golden.antt =====
-- test/golden/compare_fbdi.py: the byte compare of a generated FBDI or HDL file with its golden file.
pub mod Csv
pub mod Dat
pub mod Tokens
pub mod Diff
pub mod Compare
mod Tests
