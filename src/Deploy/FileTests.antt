-- ===== src/Deploy/FileTests.antt =====
-- A code file and two migrations.
use data_migration_tool.Prelude.{◌*◌, nat_beq, ◌≡◌, refl, true, some, [], ◌∷◌, if◌then◌else◌}
use data_migration_tool.Prelude.Text.{
  codes, text_eq, has_prefix, is_space, lstrip, rstrip, strip, upper,
}
use data_migration_tool.Regression.Rows.{is_word, is_digit}
use data_migration_tool.Regression.Issue.{after, span}
use data_migration_tool.Deploy.Words.{
  at_boundary, after_spaces, is_keyword, skip_word, skip_or_replace, skip_editionable,
  strip_leading_comments, strip_rounds, strip_comment, behind,
}
use data_migration_tool.Deploy.Objects.{
  is_code_start, code_line, is_code, is_table_ddl, search_word, has_table_ddl, skip_quote,
  identifier, skip_owner, object_name, skip_words, typed_object, created_object,
}
use data_migration_tool.Deploy.Code.{Source, contents, Act}
use data_migration_tool.Deploy.Code
use data_migration_tool.Guard
use data_migration_tool.Deploy.Table.{
  after_break, split_breaks, statements, add_column, added_columns, mentions, is_git_first,
}
use data_migration_tool.Deploy.Table

package_code : is_code (codes "-- x\ncreate or replace package body p as") ≡ true
unfolding is_code code_line is_code_start skip_word skip_editionable is_keyword after after_spaces
    at_boundary lstrip is_space upper is_word is_digit
package_code = refl

created :
    created_object (codes "CREATE OR REPLACE EDITIONABLE PACKAGE  BODY \"DMT\".\"P_PKG\" AS")
    ≡ some ("PACKAGE" ∷ "BODY" ∷ [], codes "P_PKG")
unfolding created_object strip_leading_comments strip_rounds strip_comment strip rstrip lstrip
    is_space upper skip_word after after_spaces skip_or_replace skip_editionable typed_object
    skip_words object_name skip_owner identifier skip_quote span is_word is_digit text_eq has_prefix
    behind
created = refl

table_ddl : has_table_ddl (codes "begin execute immediate 'drop  table t'; end;") ≡ true
unfolding has_table_ddl search_word is_table_ddl skip_word after after_spaces is_keyword at_boundary
    upper is_word is_digit lstrip is_space
table_ddl = refl

-- a statement behind a leading comment is not run
commented :
    statements (codes "-- why\nALTER TABLE t ADD (c NUMBER);\nSELECT 1;\n") ≡ codes "SELECT 1" ∷ []
unfolding statements split_breaks after_break is_space strip rstrip lstrip has_prefix
commented = refl

-- only the first column of a list is looked at, and a column that starts with ADD loses its start
first_only :
    added_columns 99 (codes "ADD (A NUMBER, B NUMBER, ADDRESS NUMBER)")
    ≡ codes "A" ∷ codes "RESS" ∷ []
unfolding added_columns add_column after identifier skip_quote span is_word is_digit after_spaces
    lstrip is_space
first_only = refl

abbrev code_world : Code.World
code_world = record {
  connects = true;
  source = λ p. contents (codes "CREATE OR REPLACE VIEW v AS SELECT 1 FROM dual;\n");
  accepts = λ h s. true;
  compile_errors = λ h n. [];
}

abbrev quiet : Guard.View
quiet = record {
  connects = true;
  jobs = Guard.rows [];
  runs = Guard.rows [];
  objects = Guard.rows [];
}

-- a run that is over at the second check
abbrev soon_idle : Guard.World
soon_idle = record {
  check = λ n. if nat_beq n 0 then record quiet { jobs = Guard.rows ("DMT_WQ_17" ∷ []) } else quiet;
  start = 0;
  clock = λ n. n * 20;
}

abbrev table_world : Table.World
table_world = record {
  source = λ p. contents (
      if text_eq p (codes "m.sql")
      then codes "ALTER TABLE t ADD (c NUMBER);\n"
      else codes "CREATE TABLE t (c NUMBER)");
  basename = λ p. p;
  has_log = λ h. true;
  log_count = λ h n. 0;
  accepts = λ h s. true;
}
