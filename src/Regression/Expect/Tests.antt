-- ===== src/Regression/Expect/Tests.antt =====
-- A FAILED-mode run, and the scenario file's spellings.
use data_migration_tool.Prelude.{ℕ, ◌≡◌, refl, ◌↔◌, true, false, some, List, [], ◌∷◌, is_empty}
use data_migration_tool.Prelude.Text.{codes, has_prefix, has_suffix}
use data_migration_tool.Regression.Issue.{is_digit_code}
use data_migration_tool.Regression.Expect.{
  Pick, is_stg_table, is_ident, chomp, selection_failures, wanted_seqs, member,
}
use data_migration_tool.Regression.Expect.Selected.{selection_failures-Selected}

table_name : is_stg_table (codes "DMT_ITEMS_STG_TBL") ≡ true
unfolding is_stg_table is_ident chomp has_prefix has_suffix is_digit_code
table_name = refl

no_table_name : is_stg_table (codes "DMT_STG_TBL") ≡ false
unfolding is_stg_table is_ident chomp has_prefix has_suffix is_digit_code
no_table_name = refl

abbrev rows : List Pick
rows =
    record { seq = 7; src = some (codes "A"); pick = true }
    ∷ record { seq = 8; src = some (codes "B"); pick = false }
    ∷ []

selection_failures-Selected_example :
    (is_empty (selection_failures (codes "Items") rows (7 ∷ [])) ≡ true)
    ↔ ((q : ℕ) → (member q (7 ∷ []) ≡ true) ↔ (member q (wanted_seqs rows) ≡ true))
selection_failures-Selected_example = selection_failures-Selected (codes "Items") rows (7 ∷ [])
