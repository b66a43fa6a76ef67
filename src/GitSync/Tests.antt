-- ===== src/GitSync/Tests.antt =====
-- A view as the dictionary tool exports it against the text of the data dictionary, and a schema
-- without the package.
use data_migration_tool.Prelude.{◌≡◌, refl, none, some, [], if◌then◌else◌}
use data_migration_tool.Prelude.Text.{
  Text, codes, text_eq, has_suffix, has_prefix, is_space, strip, lstrip, rstrip, upper, upper_code,
  join_with,
}
use data_migration_tool.Regression.Rows.{contains, is_word}
use data_migration_tool.Regression.Issue.{after}
use data_migration_tool.Deploy.Words.{at_boundary, skip_word, skip_editionable, after_spaces}
use data_migration_tool.Deploy.Split.{splitlines, pieces, drop_last_empty}
use data_migration_tool.Deploy.Table.{drop_last}
use data_migration_tool.GitSync.{a_view, manifest}
use data_migration_tool.GitSync.Normalize.{
  normalize, normalize_lines, keeps_line, drop_create, skip_create, view_body, behind_as,
  fold_spaces, drop_mark,
}
use data_migration_tool.GitSync.Sync.{Schema, Files, Report, check, pull, main}
use data_migration_tool.GitSync.Pulled.{apart, main-pulled}

abbrev exported : Text
exported =
    codes
      "-- Snapshot.\n\n  CREATE OR REPLACE EDITIONABLE VIEW \"V\" (\"A\",\r\n \"B\") AS \r\n  select a,  b\r\nfrom t;\r\n/\r\n"

abbrev from_database : Text
from_database = codes "CREATE OR REPLACE VIEW V AS\nSELECT a, b\n  FROM t\n/\n"

alike : normalize a_view exported ≡ codes "SELECT A, B FROM T"
unfolding normalize normalize_lines splitlines pieces drop_last_empty keeps_line contains
    drop_create skip_create skip_word skip_editionable after after_spaces is_word view_body
    behind_as at_boundary fold_spaces drop_mark drop_last has_suffix has_prefix is_space strip
    lstrip rstrip upper upper_code join_with
alike = refl

alike_too : normalize a_view from_database ≡ codes "SELECT A, B FROM T"
unfolding normalize normalize_lines splitlines pieces drop_last_empty keeps_line contains
    drop_create skip_create skip_word skip_editionable after after_spaces is_word view_body
    behind_as at_boundary fold_spaces drop_mark drop_last has_suffix has_prefix is_space strip
    lstrip rstrip upper upper_code join_with
alike_too = refl

abbrev schema : Schema
schema = record {
  owner = codes "DMT2_OWNER";
  view_text = λ n.
      if text_eq n (codes "DMT_OBJECT_DETAIL_V")
      then none
      else some (codes "SELECT 1\r\nFROM dual");
  source_lines = λ n. [];
}

abbrev nothing : Files
nothing p = none

main-pulled_example :
    (main check schema manifest (Report.files ((main pull schema manifest nothing).0))).1 ≡ 0
unfolding apart text_eq
main-pulled_example = main-pulled schema manifest nothing refl
