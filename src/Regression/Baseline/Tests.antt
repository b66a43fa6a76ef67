-- ===== src/Regression/Baseline/Tests.antt =====
-- A baseline with one covered sub-object.
use data_migration_tool.Prelude.{◌≡◌, ◌↔◌, true, false, some, List, [], ◌∷◌, nat_beq, is_empty}
use data_migration_tool.Prelude.Text.{Text, codes}
use data_migration_tool.Regression.Rows.Counts.{PerObj, no_rows}
use data_migration_tool.Regression.Baseline.{Base, no_base, find, now_of, regressions}
use data_migration_tool.Regression.Baseline.NotWorse.{NotWorse, regressions-NotWorse}

abbrev per : PerObj
per = (codes "Items", record (no_rows (codes "Items")) { good_loaded = 3; n_loaded = 3 }) ∷ []

abbrev base : List (Text × Base)
base = (codes "Items", record no_base { good_loaded = 3; total = 4; bad_failed = 1 }) ∷ []

regressions-NotWorse_example : (is_empty (regressions per base) ≡ true) ↔ (
    (sub : Text) (was : Base)
    → find sub base ≡ some was
    → nat_beq was.total 0 ≡ false
    → NotWorse was (now_of sub per))
regressions-NotWorse_example = regressions-NotWorse per base
